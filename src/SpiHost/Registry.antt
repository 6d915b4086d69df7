-- ===== src/SpiHost/Registry.antt =====
-- crates/geonosis-spi-host/src/registry.rs. The registry is under a lock, so each method is one step on the map. A fresh id is an argument.
pub mod Lists
pub mod Order
pub mod Seeds
pub mod Active
use geonosis.Base.{
  ℕ, String, Bool, true, false, not, ◌&&◌, Option, none, some, List, [], ◌∷◌, ◌++◌, if◌then◌else◌,
  ◌==◌, string_eq, nat_eq, pair_eq, Map, lookup, insert, any, find,
}
use geonosis.SpiHost.WitInterface.{WitInterfaceName}
use geonosis.SpiHost.WitInterface
use geonosis.Base.Int.{ℤ, pos, int_ltb}
use geonosis.Flow.Json.{Value, object, end}

pub record ProviderCapabilities : Type 0 where
  pub lookup : Bool
  pub validate_credential : Bool
  pub write_users : Bool
  pub group_membership : Bool
  pub federated_groups : Bool
  pub passwordless : Bool

-- `ProviderCapabilities::default()`
abbrev pub no_capabilities : ProviderCapabilities
no_capabilities = record {
  lookup = false;
  validate_credential = false;
  write_users = false;
  group_membership = false;
  federated_groups = false;
  passwordless = false;
}

pub data ProviderOrigin : Type 0 where
  builtin : ProviderOrigin
  wasm : ℕ → String → ProviderOrigin

pub record ProviderBinding : Type 0 where
  pub id : ℕ
  pub realm_id : ℕ
  pub interface : WitInterfaceName
  pub provider_urn : String
  pub priority : ℤ
  pub enabled : Bool
  pub config : Value
  pub replaces : Option String
  pub capabilities : ProviderCapabilities
  pub origin : ProviderOrigin

abbrev pub builtin_mapper_urns : List String
builtin_mapper_urns =
    "builtin:mapper:claim-from-attribute" ∷ "builtin:mapper:realm-role"
    ∷ "builtin:mapper:client-role" ∷ "builtin:mapper:groups" ∷ "builtin:mapper:audience-resolve"
    ∷ []

abbrev pub builtin_event_urns : List String
builtin_event_urns = "builtin:event:postgres-audit" ∷ "builtin:event:webhook" ∷ []

abbrev pub builtin_policy_urns : List String
builtin_policy_urns = "builtin:policy:default-scope-policy" ∷ []

abbrev pub builtin_binding : ℕ → ℕ → WitInterfaceName → String → ProviderBinding
builtin_binding id realm interface urn = record {
  id = id;
  realm_id = realm;
  interface = interface;
  provider_urn = urn;
  priority = pos 0;
  enabled = true;
  config = object end;
  replaces = none;
  capabilities = no_capabilities;
  origin = builtin;
}

-- The map of the registry, by realm and interface.
abbrev pub Registry : Type 0
Registry = Map (ℕ × WitInterfaceName) (List ProviderBinding)

-- `sort_by_key(|x| Reverse(x.priority))`: a stable sort, the highest priority first.
unfoldable pub place : ProviderBinding → List ProviderBinding → List ProviderBinding
place b [] = b ∷ []
place b (c ∷ bs) = if int_ltb b.priority c.priority then c ∷ place b bs else b ∷ c ∷ bs

unfoldable pub sort_by_priority : List ProviderBinding → List ProviderBinding
sort_by_priority [] = []
sort_by_priority (b ∷ bs) = place b (sort_by_priority bs)

-- `ProviderRegistry::list`
unfoldable pub list : Registry → ℕ → WitInterfaceName → List ProviderBinding
list registry realm interface = elim (lookup (realm, interface) registry) [
  | none ↦ []
  | some bs ↦ bs
]

-- `ProviderRegistry::register`
unfoldable pub register : ProviderBinding → Registry → Registry
register b registry =
    insert (b.realm_id, b.interface)
      (sort_by_priority (list registry b.realm_id b.interface ++ b ∷ [])) registry

-- `v.iter().any(|b| b.provider_urn == urn)`
unfoldable pub lists_urn : String → List ProviderBinding → Bool
lists_urn urn bindings = any (λ (c : ProviderBinding). c.provider_urn == urn) bindings

-- What `register_if_absent` does to the list of the binding's interface.
unfoldable pub extended : ProviderBinding → List ProviderBinding → List ProviderBinding
extended b bindings =
    if lists_urn b.provider_urn bindings then bindings else sort_by_priority (bindings ++ b ∷ [])

-- `ProviderRegistry::register_if_absent`; `or_default` makes the entry in either case.
unfoldable pub register_if_absent : ProviderBinding → Registry → Registry
register_if_absent b registry =
    insert (b.realm_id, b.interface) (extended b (list registry b.realm_id b.interface)) registry

-- A loop of `seed_v0_1_builtins`, with the ids that it draws by URN.
unfoldable pub seed_each : (String → ℕ) → ℕ → WitInterfaceName → List String → Registry → Registry
seed_each fresh realm interface [] registry = registry
seed_each fresh realm interface (urn ∷ urns) registry =
    seed_each fresh realm interface urns
      (register_if_absent (builtin_binding (fresh urn) realm interface urn) registry)

-- `ProviderRegistry::seed_v0_1_builtins`
unfoldable pub seed_builtins : (String → ℕ) → ℕ → Registry → Registry
seed_builtins fresh realm registry = seed_each fresh realm WitInterface.policy builtin_policy_urns (
    seed_each fresh realm WitInterface.event builtin_event_urns
      (seed_each fresh realm WitInterface.mapper builtin_mapper_urns registry))

-- `replaced.contains(urn)`
unfoldable pub is_replaced : List ProviderBinding → String → Bool
is_replaced bindings urn =
    any (λ (b : ProviderBinding). elim b.replaces [ none ↦ false | some u ↦ u == urn ]) bindings

-- `ProviderRegistry::first_enabled`
unfoldable pub first_enabled : Registry → ℕ → WitInterfaceName → Option ProviderBinding
first_enabled registry realm interface =
    let bindings = list registry realm interface in
    find (λ (b : ProviderBinding). b.enabled && not (is_replaced bindings b.provider_urn)) bindings
