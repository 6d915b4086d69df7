-- ===== src/Storage/Tokens.antt =====
-- crates/geonosis-storage/src/memory.rs: the tables of codes, refresh tokens, token families and
-- device grants, each method under the table's lock. A method that writes returns the new tables.
pub mod Families
pub mod Owners
pub mod Reachable
use geonosis.Base.{
  ℕ, String, Bool, true, Option, none, some, List, [], ◌∷◌, ◌++◌, Result, ok, err, ok_or, Map,
  lookup, insert, remove, contains_key, nat_eq, string_eq, if◌then◌else◌, str_append,
}
pub use geonosis.Storage.Errors.{StorageError, not_found, conflict, backend, invalid}
unfoldable pub use geonosis.Storage.Errors.{to_string}
use geonosis.Core.Token.{CodeGrant, RefreshToken}

pub data DeviceGrantStatus : Type 0 where
  pending approved denied expired : DeviceGrantStatus

pub record DeviceGrant : Type 0 where
  pub device_code : String
  pub user_code : String
  pub realm_id : ℕ
  pub client_id : ℕ
  pub scope : List String
  pub interval_seconds : ℕ
  pub status : DeviceGrantStatus
  pub user_id : Option ℕ
  pub session_id : Option String
  pub created_at : ℕ
  pub expires_at : ℕ
  pub last_polled_at : Option ℕ

-- The tables that the grants use.
pub record Tables : Type 0 where
  pub codes : Map String CodeGrant
  pub refresh_tokens : Map String RefreshToken
  pub families : Map ℕ (List String)
  pub device_by_device_code : Map String DeviceGrant
  pub device_by_user_code : Map String String

abbrev pub empty : Tables
empty = record {
  codes = [];
  refresh_tokens = [];
  families = [];
  device_by_device_code = [];
  device_by_user_code = [];
}

unfoldable pub save_code_grant : CodeGrant → Tables → Tables
save_code_grant grant t = record t { codes = insert grant.code grant t.codes }

unfoldable pub consume_code : String → Tables → Tables × Result StorageError CodeGrant
consume_code code t =
    (record t { codes = remove code t.codes }, ok_or (lookup code t.codes) not_found)

-- `families.entry(family).or_default()`
abbrev pub family_of : Tables → ℕ → List String
family_of t family = elim (lookup family t.families) [ none ↦ [] | some ids ↦ ids ]

unfoldable pub save_refresh_token : RefreshToken → Tables → Tables
save_refresh_token token t = record t {
  families = insert token.family_id (family_of t token.family_id ++ token.id ∷ []) t.families;
  refresh_tokens = insert token.id token t.refresh_tokens;
}

unfoldable pub get_refresh_token : String → Tables → Result StorageError RefreshToken
get_refresh_token id t = ok_or (lookup id t.refresh_tokens) not_found

unfoldable pub mark_refresh_used : String → Tables → Tables × Result StorageError (Unit {0})
mark_refresh_used id t = elim (lookup id t.refresh_tokens) [
  | none ↦ (t, err not_found)
  | some tok ↦
      (record t { refresh_tokens = insert id (record tok { used = true }) t.refresh_tokens }, ok tt)
]

unfoldable pub remove_all : List String → Map String RefreshToken → Map String RefreshToken
remove_all [] tokens = tokens
remove_all (id ∷ ids) tokens = remove_all ids (remove id tokens)

unfoldable pub revoke_token_family : ℕ → Tables → Tables
revoke_token_family family t = elim (lookup family t.families) [
  | none ↦ t
  | some ids ↦ record t {
    families = remove family t.families;
    refresh_tokens = remove_all ids t.refresh_tokens;
  }
]

unfoldable pub save_device_grant : DeviceGrant → Tables → Tables
save_device_grant grant t = record t {
  device_by_user_code = insert grant.user_code grant.device_code t.device_by_user_code;
  device_by_device_code = insert grant.device_code grant t.device_by_device_code;
}

unfoldable pub get_device_grant_by_device_code : String → Tables → Result StorageError DeviceGrant
get_device_grant_by_device_code device_code t =
    ok_or (lookup device_code t.device_by_device_code) not_found

unfoldable pub get_device_grant_by_user_code : String → Tables → Result StorageError DeviceGrant
get_device_grant_by_user_code user_code t = elim (lookup user_code t.device_by_user_code) [
  | none ↦ err not_found
  | some device_code ↦ get_device_grant_by_device_code device_code t
]

unfoldable pub update_device_grant : DeviceGrant → Tables → Tables × Result StorageError (Unit {0})
update_device_grant grant t =
    if contains_key grant.device_code t.device_by_device_code
    then (
      record t { device_by_device_code = insert grant.device_code grant t.device_by_device_code },
      ok tt,
    )
    else (t, err not_found)

unfoldable pub delete_device_grant : String → Tables → Tables × Result StorageError (Unit {0})
delete_device_grant device_code t = elim (lookup device_code t.device_by_device_code) [
  | none ↦ (t, err not_found)
  | some grant ↦ (
    record t {
      device_by_device_code = remove device_code t.device_by_device_code;
      device_by_user_code = remove grant.user_code t.device_by_user_code;
    },
    ok tt,
  )
]
