-- ===== src/Storage/Flows/Examples.antt =====
-- Runs of the flow tables.
use geonosis.Base.{
  ℕ, [], lookup, insert, contains_key, any, select, nat_eq, string_eq, pair_eq, ok, err, In, ◌≡◌,
  refl,
}
use geonosis.Base.Int.{pos, ◌≤ℤ◌}
use geonosis.Flow.Dsl.{FlowDefinition}
use geonosis.Storage.Errors.{StorageError, values}
use geonosis.Storage.Flows.{Flows, save_auth_flow, get_auth_flow_by_alias, max_by_version}
use geonosis.Storage.Flows.Versions.{get_auth_flow_by_alias-IsMax}

abbrev version_of : ℕ → ℕ → FlowDefinition
version_of id version = record {
  id = id;
  realm_id = 1;
  alias = "browser";
  display_name = "Browser";
  version = pos version;
  start = 0;
  nodes = [];
  edges = [];
}

abbrev no_flows : Flows
no_flows = record {
  flow_states = [];
  auth_flows = [];
  consent_grants = [];
  par_requests = [];
  spi_bindings = [];
  wasm_modules = [];
  agents = [];
}

abbrev two_versions : Flows
two_versions =
    (save_auth_flow (λ f. f.alias) (version_of 8 2)
      (save_auth_flow (λ f. f.alias) (version_of 7 1) no_flows).0).0

latest_is_two : get_auth_flow_by_alias 1 "browser" two_versions ≡ ok (version_of 8 2)
unfolding get_auth_flow_by_alias save_auth_flow max_by_version lookup insert contains_key any select
latest_is_two = refl

get_auth_flow_by_alias-IsMax_example :
    ((f : FlowDefinition)
      → get_auth_flow_by_alias 1 "browser" two_versions ≡ ok f
      → In f (values two_versions.auth_flows)
        × (f.realm_id ≡ 1)
        × (f.alias ≡ "browser")
        × ((g : FlowDefinition)
            → In g (values two_versions.auth_flows)
            → g.realm_id ≡ 1
            → g.alias ≡ "browser"
            → g.version ≤ℤ f.version))
    × ((e : StorageError)
        → get_auth_flow_by_alias 1 "browser" two_versions ≡ err e
        → (g : FlowDefinition) → In g (values two_versions.auth_flows)
        → g.realm_id ≡ 1
        → ¬ (g.alias ≡ "browser"))
get_auth_flow_by_alias-IsMax_example = get_auth_flow_by_alias-IsMax two_versions 1 "browser"
