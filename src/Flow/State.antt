-- ===== src/Flow/State.antt =====
-- crates/geonosis-flow/src/state.rs: a flow in progress. Instants are numbers on one time line.
use geonosis.Base.{ℕ, ◌+◌, String, Option, none, List, []}
use geonosis.Base.Int.{ℤ, pos}
use geonosis.Flow.Json.{Value}
use geonosis.Flow.Dsl.{NodeId, FlowId, RealmId}

pub record FlowHistoryEntry : Type 0 where
  pub node : NodeId
  pub at : ℕ
  pub outcome : String

pub record FlowContext : Type 0 where
  pub username : Option String
  pub user_id : Option String
  pub client_id : Option String
  pub amr : List String
  pub authn_level : ℤ
  pub requested_acr : Option String
  pub session_id : Option String
  pub locals : List (String × Value)

-- `FlowContext::default()`
abbrev pub default_context : FlowContext
default_context = record {
  username = none;
  user_id = none;
  client_id = none;
  amr = [];
  authn_level = pos 0;
  requested_acr = none;
  session_id = none;
  locals = [];
}

pub record FlowState : Type 0 where
  pub id : ℕ
  pub realm_id : RealmId
  pub flow_id : FlowId
  pub flow_version : ℤ
  pub current_node : NodeId
  pub history : List FlowHistoryEntry
  pub context : FlowContext
  pub started_at : ℕ
  pub last_activity_at : ℕ
  pub expires_at : ℕ
  pub csrf_token : String

-- `FlowState::fresh`, with the clock's reading, the random id and the random token as arguments;
-- `ttl` is what chrono makes of the `Duration`, zero if it is out of chrono's range.
unfoldable pub fresh : ℕ → ℕ → String → RealmId → FlowId → ℤ → NodeId → ℕ → FlowState
fresh now id token realm flow_id flow_version start ttl = record {
  id = id;
  realm_id = realm;
  flow_id = flow_id;
  flow_version = flow_version;
  current_node = start;
  history = [];
  context = default_context;
  started_at = now;
  last_activity_at = now;
  expires_at = now + ttl;
  csrf_token = token;
}
