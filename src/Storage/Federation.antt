-- ===== src/Storage/Federation.antt =====
-- crates/geonosis-storage/src/memory.rs: identity providers, broker states and links, and the persistent
-- name ids of SAML, each method under the lock of the tables; the rows are those of
-- crates/geonosis-broker/src/types.rs and traits.rs. The configuration of a provider is left out.
use geonosis.Base.{
  ℕ, String, Bool, ◌&&◌, Option, List, Map, lookup, insert, remove, contains_key, nat_eq, string_eq,
  pair_eq, Result, ok, err, if◌then◌else◌, ◌==◌, select, str_append,
}
use geonosis.Storage.Errors.{StorageError, not_found, conflict, Done, fetch, values}

pub record IdentityProvider : Type 0 where
  pub id : ℕ
  pub realm_id : ℕ
  pub alias : String
  pub display_name : String
  pub first_login_flow_alias : String
  pub post_login_flow_alias : Option String
  pub link_only : Bool
  pub adapter_urn : Option String
  pub enabled : Bool

pub record BrokerAuthnState : Type 0 where
  pub id : ℕ
  pub realm_id : ℕ
  pub idp_alias : String
  pub state : String
  pub nonce : Option String
  pub pkce_verifier : Option String
  pub return_to_flow_state : ℕ
  pub created_at : ℕ
  pub expires_at : ℕ

pub record BrokerLink : Type 0 where
  pub id : ℕ
  pub realm_id : ℕ
  pub user_id : ℕ
  pub idp_alias : String
  pub external_id : String
  pub external_username : Option String
  pub created_at : ℕ
  pub last_login_at : Option ℕ

pub record SamlPersistentIdRow : Type 0 where
  pub realm_id : ℕ
  pub user_id : ℕ
  pub sp_entity_id : String
  pub name_id : String
  pub created_at : ℕ

-- The tables of these entities among `Tables`.
pub record Federation : Type 0 where
  pub idps : Map (ℕ × String) IdentityProvider
  pub broker_states : Map (ℕ × String) BrokerAuthnState
  pub broker_links : Map (ℕ × (String × String)) BrokerLink
  pub saml_persistent_ids : Map (ℕ × (ℕ × String)) SamlPersistentIdRow

unfoldable pub create_idp : IdentityProvider → Federation → Federation × Done
create_idp idp t =
    if contains_key (idp.realm_id, idp.alias) t.idps
    then (t, err (conflict (str_append "idp alias " (str_append idp.alias " taken"))))
    else (record t { idps = insert (idp.realm_id, idp.alias) idp t.idps }, ok tt)

unfoldable pub get_idp_by_alias : ℕ → String → Federation → Result StorageError IdentityProvider
get_idp_by_alias realm alias t = fetch (realm, alias) t.idps

unfoldable pub list_idps : ℕ → Federation → List IdentityProvider
list_idps realm t =
    values (select (λ (row : (ℕ × String) × IdentityProvider). row.0.0 == realm) t.idps)

unfoldable pub delete_idp : ℕ → String → Federation → Federation × Done
delete_idp realm alias t =
    if contains_key (realm, alias) t.idps
    then (record t { idps = remove (realm, alias) t.idps }, ok tt)
    else (t, err not_found)

unfoldable pub save_broker_state : BrokerAuthnState → Federation → Federation
save_broker_state state t = record t {
  broker_states = insert (state.realm_id, state.state) state t.broker_states;
}

unfoldable pub consume_broker_state :
    ℕ → String → Federation → Federation × Result StorageError BrokerAuthnState
consume_broker_state realm state t = (
  record t { broker_states = remove (realm, state) t.broker_states },
  fetch (realm, state) t.broker_states,
)

unfoldable pub upsert_broker_link : BrokerLink → Federation → Federation
upsert_broker_link link t = record t {
  broker_links = insert (link.realm_id, (link.idp_alias, link.external_id)) link t.broker_links;
}

unfoldable pub find_broker_link : ℕ → String → String → Federation → Option BrokerLink
find_broker_link realm idp_alias external_id t =
    lookup (realm, (idp_alias, external_id)) t.broker_links

unfoldable pub list_broker_links : ℕ → ℕ → Federation → List BrokerLink
list_broker_links realm user_id t = values (
    select
      (λ (row : (ℕ × (String × String)) × BrokerLink). row.0.0 == realm && row.1.user_id == user_id)
      t.broker_links)

unfoldable pub get_saml_persistent_id : ℕ → ℕ → String → Federation → Option SamlPersistentIdRow
get_saml_persistent_id realm user_id sp_entity_id t =
    lookup (realm, (user_id, sp_entity_id)) t.saml_persistent_ids

-- `entry(key).or_insert(row)`
unfoldable pub save_saml_persistent_id : SamlPersistentIdRow → Federation → Federation
save_saml_persistent_id row t =
    if contains_key (row.realm_id, (row.user_id, row.sp_entity_id)) t.saml_persistent_ids
    then t
    else record t {
      saml_persistent_ids =
          insert (row.realm_id, (row.user_id, row.sp_entity_id)) row t.saml_persistent_ids;
    }
