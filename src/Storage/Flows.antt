-- ===== src/Storage/Flows.antt =====
-- crates/geonosis-storage/src/memory.rs: flows and their states, consents, pushed requests, provider
-- bindings, modules and agents, each method under the lock of the tables. The order of the entries that
-- a list or a search goes through is that of the table, unspecified in the source. What the other code
-- reads of the row types of traits.rs and of agent.rs is modelled.
pub mod Versions
mod Examples
use geonosis.Base.{
  ℕ, String, Bool, true, false, not, ◌&&◌, Option, none, some, List, [], ◌∷◌, Map, lookup, insert,
  remove, contains_key, nat_eq, string_eq, pair_eq, Result, ok, err, ok_or, if◌then◌else◌, ◌==◌,
  select, any, find, map, str_append,
}
use geonosis.Base.Int.{ℤ, int_ltb, int_eqb}
use geonosis.Flow.Dsl.{FlowDefinition}
use geonosis.Flow.State.{FlowState}
use geonosis.Flow.Json.{Value}
use geonosis.Storage.Errors.{StorageError, not_found, conflict, Done, fetch, values}

pub record FlowStateRow : Type 0 where
  pub state : FlowState
  pub authorize_params : List (String × String)

pub record ConsentGrant : Type 0 where
  pub id : ℕ
  pub realm_id : ℕ
  pub user_id : ℕ
  pub client_id : ℕ
  pub scopes : List String
  pub granted_at : ℕ
  pub updated_at : ℕ

pub record ParRequest : Type 0 where
  pub request_uri : String
  pub realm_id : ℕ
  pub client_id : ℕ
  pub params : List (String × String)
  pub created_at : ℕ
  pub expires_at : ℕ

pub record SpiBindingRow : Type 0 where
  pub id : ℕ
  pub realm_id : ℕ
  pub interface : String
  pub provider_urn : String
  pub priority : ℤ
  pub enabled : Bool
  pub config : Value
  pub replaces : Option String
  pub created_at : ℕ
  pub updated_at : ℕ

pub record WasmModuleHeader : Type 0 where
  pub id : ℕ
  pub realm_id : ℕ
  pub alias : String
  pub interface : String
  pub sha256_hex : String
  pub size_bytes : ℤ
  pub created_at : ℕ

pub record WasmModule : Type 0 where
  pub header : WasmModuleHeader
  pub bytecode : List ℕ
  pub uploaded_by : Option ℕ

pub record Agent : Type 0 where
  pub id : ℕ
  pub realm_id : ℕ
  pub alias : String
  pub allowed_scopes : List String
  pub allowed_audiences : List String
  pub expires_at : Option ℕ
  pub revoked_at : Option ℕ
  pub enabled : Bool

-- The tables of these entities among `Tables`.
pub record Flows : Type 0 where
  pub flow_states : Map ℕ FlowStateRow
  pub auth_flows : Map (ℕ × ℕ) FlowDefinition
  pub consent_grants : Map (ℕ × (ℕ × ℕ)) ConsentGrant
  pub par_requests : Map String ParRequest
  pub spi_bindings : Map (ℕ × ℕ) SpiBindingRow
  pub wasm_modules : Map (ℕ × String) WasmModule
  pub agents : Map (ℕ × ℕ) Agent

unfoldable pub save_flow_state : FlowStateRow → Flows → Flows
save_flow_state row t = record t { flow_states = insert row.state.id row t.flow_states }

unfoldable pub get_flow_state : ℕ → Flows → Result StorageError FlowStateRow
get_flow_state id t = fetch id t.flow_states

unfoldable pub delete_flow_state : ℕ → Flows → Flows × Done
delete_flow_state id t =
    if contains_key id t.flow_states
    then (record t { flow_states = remove id t.flow_states }, ok tt)
    else (t, err not_found)

abbrev pub is_version_of : ℕ → String → ℤ → FlowDefinition → Bool
is_version_of realm alias version f =
    f.realm_id == realm && f.alias == alias && int_eqb f.version version

-- The text of the conflict is an argument.
unfoldable pub save_auth_flow : (FlowDefinition → String) → FlowDefinition → Flows → Flows × Done
save_auth_flow exists_text flow t =
    if any (is_version_of flow.realm_id flow.alias flow.version) (values t.auth_flows)
      && not (contains_key (flow.realm_id, flow.id) t.auth_flows)
    then (t, err (conflict (exists_text flow)))
    else (record t { auth_flows = insert (flow.realm_id, flow.id) flow t.auth_flows }, ok tt)

abbrev pub is_alias_of : ℕ → String → FlowDefinition → Bool
is_alias_of realm alias f = f.realm_id == realm && f.alias == alias

-- The later of two wins a tie.
abbrev pub higher : FlowDefinition → Option FlowDefinition → Option FlowDefinition
higher f none = some f
higher f (some g) = if int_ltb g.version f.version then some f else some g

-- `max_by_key(|f| f.version)`
unfoldable pub max_by_version : List FlowDefinition → Option FlowDefinition
max_by_version [] = none
max_by_version (f ∷ fs) = higher f (max_by_version fs)

unfoldable pub get_auth_flow_by_alias : ℕ → String → Flows → Result StorageError FlowDefinition
get_auth_flow_by_alias realm alias t =
    ok_or (max_by_version (select (is_alias_of realm alias) (values t.auth_flows))) not_found

unfoldable pub get_auth_flow_by_alias_and_version :
    ℕ → String → ℤ → Flows → Result StorageError FlowDefinition
get_auth_flow_by_alias_and_version realm alias version t =
    ok_or (find (is_version_of realm alias version) (values t.auth_flows)) not_found

-- The loop of `list_auth_flows`.
unfoldable pub keep_latest :
    List FlowDefinition → Map String FlowDefinition → Map String FlowDefinition
keep_latest [] latest = latest
keep_latest (f ∷ fs) latest = keep_latest fs (elim (lookup f.alias latest) [
  | none ↦ insert f.alias f latest
  | some prev ↦ if int_ltb prev.version f.version then insert f.alias f latest else latest
])

unfoldable pub list_auth_flows : ℕ → Flows → List FlowDefinition
list_auth_flows realm t =
    values
      (keep_latest (select (λ (f : FlowDefinition). f.realm_id == realm) (values t.auth_flows)) [])

unfoldable pub delete_auth_flow : ℕ → ℕ → Flows → Flows × Done
delete_auth_flow realm id t =
    if contains_key (realm, id) t.auth_flows
    then (record t { auth_flows = remove (realm, id) t.auth_flows }, ok tt)
    else (t, err not_found)

unfoldable pub save_consent_grant : ConsentGrant → Flows → Flows
save_consent_grant grant t = record t {
  consent_grants = insert (grant.realm_id, (grant.user_id, grant.client_id)) grant t.consent_grants;
}

unfoldable pub get_consent_grant : ℕ → ℕ → ℕ → Flows → Result StorageError ConsentGrant
get_consent_grant realm user_id client_id t = fetch (realm, (user_id, client_id)) t.consent_grants

unfoldable pub delete_consent_grant : ℕ → ℕ → ℕ → Flows → Flows × Done
delete_consent_grant realm user_id client_id t =
    if contains_key (realm, (user_id, client_id)) t.consent_grants
    then (
      record t { consent_grants = remove (realm, (user_id, client_id)) t.consent_grants },
      ok tt,
    )
    else (t, err not_found)

unfoldable pub save_par_request : ParRequest → Flows → Flows
save_par_request par t = record t { par_requests = insert par.request_uri par t.par_requests }

unfoldable pub consume_par_request : String → Flows → Flows × Result StorageError ParRequest
consume_par_request request_uri t = (
  record t { par_requests = remove request_uri t.par_requests },
  fetch request_uri t.par_requests,
)

unfoldable pub upload_wasm_module : WasmModule → Flows → Flows
upload_wasm_module m t = record t {
  wasm_modules = insert (m.header.realm_id, m.header.alias) m t.wasm_modules;
}

unfoldable pub get_wasm_module : ℕ → String → Flows → Result StorageError WasmModule
get_wasm_module realm alias t = fetch (realm, alias) t.wasm_modules

unfoldable pub list_wasm_modules : ℕ → Flows → List WasmModuleHeader
list_wasm_modules realm t =
    map (λ (m : WasmModule). m.header)
      (values (select (λ (row : (ℕ × String) × WasmModule). row.0.0 == realm) t.wasm_modules))

unfoldable pub delete_wasm_module : ℕ → String → Flows → Flows × Done
delete_wasm_module realm alias t =
    if contains_key (realm, alias) t.wasm_modules
    then (record t { wasm_modules = remove (realm, alias) t.wasm_modules }, ok tt)
    else (t, err not_found)

unfoldable pub create_spi_binding : SpiBindingRow → Flows → Flows
create_spi_binding binding t = record t {
  spi_bindings = insert (binding.realm_id, binding.id) binding t.spi_bindings;
}

unfoldable pub list_spi_bindings : ℕ → String → Flows → List SpiBindingRow
list_spi_bindings realm interface t = values (
    select (λ (row : (ℕ × ℕ) × SpiBindingRow). row.0.0 == realm && row.1.interface == interface)
      t.spi_bindings)

unfoldable pub update_spi_binding : SpiBindingRow → Flows → Flows × Done
update_spi_binding binding t =
    if contains_key (binding.realm_id, binding.id) t.spi_bindings
    then (
      record t { spi_bindings = insert (binding.realm_id, binding.id) binding t.spi_bindings },
      ok tt,
    )
    else (t, err not_found)

unfoldable pub delete_spi_binding : ℕ → ℕ → Flows → Flows × Done
delete_spi_binding realm binding_id t =
    if contains_key (realm, binding_id) t.spi_bindings
    then (record t { spi_bindings = remove (realm, binding_id) t.spi_bindings }, ok tt)
    else (t, err not_found)

unfoldable pub create_agent : Agent → Flows → Flows × Done
create_agent agent t =
    if contains_key (agent.realm_id, agent.id) t.agents
    then (t, err (conflict "agent exists"))
    else if any (λ (a : Agent). a.realm_id == agent.realm_id && a.alias == agent.alias)
        (values t.agents)
    then (t, err (conflict "agent alias taken"))
    else (record t { agents = insert (agent.realm_id, agent.id) agent t.agents }, ok tt)

unfoldable pub get_agent : ℕ → ℕ → Flows → Result StorageError Agent
get_agent realm id t = fetch (realm, id) t.agents

unfoldable pub get_agent_by_alias : ℕ → String → Flows → Result StorageError Agent
get_agent_by_alias realm alias t =
    ok_or (find (λ (a : Agent). a.realm_id == realm && a.alias == alias) (values t.agents))
      not_found

unfoldable pub list_agents : ℕ → Flows → List Agent
list_agents realm t = select (λ (a : Agent). a.realm_id == realm) (values t.agents)

unfoldable pub update_agent : Agent → Flows → Flows × Done
update_agent agent t =
    if contains_key (agent.realm_id, agent.id) t.agents
    then (record t { agents = insert (agent.realm_id, agent.id) agent t.agents }, ok tt)
    else (t, err not_found)

-- The clock is an argument.
unfoldable pub revoke_agent : ℕ → ℕ → ℕ → Flows → Flows × Done
revoke_agent now realm id t = elim (lookup (realm, id) t.agents) [
  | none ↦ (t, err not_found)
  | some agent ↦ (
    record t {
      agents =
          insert (realm, id) (record agent { revoked_at = some now; enabled = false }) t.agents;
    },
    ok tt,
  )
]
