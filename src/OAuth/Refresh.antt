-- ===== src/OAuth/Refresh.antt =====
-- crates/geonosis-protocol-oauth/src/refresh.rs: refresh tokens are rotated, and a token that is
-- presented twice burns its family. The storage is the in-memory one, whose
-- `revoke_token_family` and `save_refresh_token` always succeed. The hash of crates/geonosis-crypto
-- is a parameter, and the time that `Utc::now()` reads is an argument.
pub mod Reuse
use geonosis.Base.{ℕ, String, Bool, List, Result, ok, err, ltb, if◌then◌else◌, str_append}
use geonosis.Core.Token.{RefreshToken}
use geonosis.Storage.Tokens.{
  to_string, not_found as missing, conflict, backend, invalid, Tables, save_refresh_token,
  get_refresh_token, mark_refresh_used, revoke_token_family,
}

pub data RefreshRotateError : Type 0 where
  not_found expired reuse : RefreshRotateError
  storage : String → RefreshRotateError

pub record RefreshOutcome : Type 0 where
  pub prior : RefreshToken

module _ (refresh_token_hash : String → List ℕ → String) where
  unfoldable pub validate_refresh :
      ℕ → String → List ℕ → Tables → Tables × Result RefreshRotateError RefreshOutcome
  validate_refresh now presented_secret realm_hash_key t =
      elim (get_refresh_token (refresh_token_hash presented_secret realm_hash_key) t) [
        | err e ↦ (t, err not_found)
        | ok tok ↦
            if ltb tok.expires_at now
            then (t, err expired)
            else if tok.used
            then (revoke_token_family tok.family_id t, err reuse)
            else (t, ok (record { prior = tok }))
      ]

-- The `debug_assert_eq!` on the families is no check in a release build.
unfoldable pub rotate_refresh_token :
    RefreshToken → RefreshToken → Tables → Tables × Result RefreshRotateError (Unit {0})
rotate_refresh_token prior replacement t =
    let (marked, r) = mark_refresh_used prior.id t in
    elim r [
      | err e ↦ (marked, err (storage (to_string e)))
      | ok u ↦ (save_refresh_token replacement marked, ok tt)
    ]
