-- ===== src/Server/DevicePoll.antt =====
-- crates/geonosis-server/src/handlers/token.rs: the poll of a device grant and the tokens that a user is
-- issued in a new session. What a request draws (a session id, a secret, a family, the time), the hashes
-- and the issuer that signs tokens are arguments, as is chrono's count of the seconds between two
-- instants. Metrics are left out; the in-memory storage does not fail on saving.
pub mod Outcome
mod Examples
use geonosis.Base.{
  ℕ, ◌+◌, String, Bool, true, false, not, ◌||◌, Option, none, some, List, [], Result, ok, err,
  ok_or, ◌>>=◌, if◌then◌else◌, ltb, nat_beq, any, ◌==◌, string_eq, str_append,
}
use geonosis.Base.Int.{ℤ, pos, int_ltb}
use geonosis.Core.Subject.{local}
use geonosis.Core.Client.{Client}
use geonosis.Core.Realm.{Realm}
use geonosis.Core.Token.{RefreshToken}
use geonosis.Core.Session.{Session, single}
use geonosis.Storage.Tokens.{
  Tables, DeviceGrant, pending, approved, denied, expired, save_refresh_token,
  get_device_grant_by_device_code, update_device_grant, delete_device_grant,
}
use geonosis.Storage.Directory.{Directory, create_session}
use geonosis.OAuth.Errors.{
  OAuthError, oauth_error, invalid_request, invalid_grant, server_error, expired_token, slow_down,
  authorization_pending, access_denied,
}
use geonosis.OAuth.Pkce.{
  PkceError, plain_rejected, unsupported_method, invalid_verifier, verifier_mismatch,
}
use geonosis.OAuth.Grants.{
  GrantError, oauth, storage, internal, pkce, IssuedTokens, bearer, TokenIssuer, join,
}

-- The two groups of tables that a poll writes.
pub record Stores : Type 0 where
  pub tokens : Tables
  pub directory : Directory

pub record Draws : Type 0 where
  pub refresh_token_hash : String → List ℕ → String
  pub realm_key : ℕ → List ℕ
  pub from_std : ℕ → Option ℕ
  pub num_seconds : ℕ → ℕ → ℤ
  pub session_id : String
  pub secret : String
  pub new_family : ℕ
  pub now : ℕ

-- The text of a `PkceError`.
unfoldable pub pkce_text : PkceError → String
pkce_text plain_rejected = "plain code_challenge_method is forbidden"
pkce_text (unsupported_method m) = str_append "unsupported code_challenge_method: " m
pkce_text invalid_verifier = "invalid code_verifier (length or charset)"
pkce_text verifier_mismatch = "code_verifier does not match code_challenge"

unfoldable pub into_oauth_err : GrantError → OAuthError
into_oauth_err (oauth e) = e
into_oauth_err (pkce e) = oauth_error invalid_grant (pkce_text e)
into_oauth_err (storage s) = oauth_error server_error s
into_oauth_err (internal s) = oauth_error server_error s

abbrev pub span : Draws → ℕ → ℕ
span draws d = elim (draws.from_std d) [ none ↦ 0 | some x ↦ x ]

abbrev pub new_session : Draws → Realm → ℕ → Session
new_session draws realm user_id = record {
  id = draws.session_id;
  realm_id = realm.id;
  user_id = user_id;
  authn_level = single;
  idp_alias = none;
  started_at = draws.now;
  last_seen_at = draws.now;
  expires_at = draws.now + span draws realm.sso_session_max;
  clients = [];
}

abbrev pub session_refresh_token : Draws → Client → Realm → ℕ → List String → RefreshToken
session_refresh_token draws client realm user_id scope = record {
  id = draws.refresh_token_hash draws.secret (draws.realm_key realm.id);
  family_id = draws.new_family;
  realm_id = realm.id;
  client_id = client.id;
  user_id = user_id;
  session_id = draws.session_id;
  scope = scope;
  issued_at = draws.now;
  expires_at = draws.now + span draws realm.refresh_token_lifespan;
  used = false;
}

-- The access token with its lifetime, and the id token.
unfoldable pub mint_user_tokens :
    Draws
    → TokenIssuer
    → Client
    → Realm
    → ℕ
    → List String
    → Result GrantError ((String × ℤ) × Option String)
mint_user_tokens draws issuer client realm user_id scope =
    issuer.mint_access_token realm client (local user_id) draws.session_id scope >>= λ access.
    if any (λ s. s == "openid") scope
    then (issuer.mint_id_token realm client (local user_id) draws.session_id scope none none
        >>= λ id_token. ok (access, some id_token))
    else ok (access, none)

unfoldable pub issue_user_tokens :
    Draws
    → TokenIssuer
    → Client
    → Realm
    → ℕ
    → List String
    → Stores
    → Stores × Result OAuthError IssuedTokens
issue_user_tokens draws issuer client realm user_id scope t =
    let directory = create_session (new_session draws realm user_id) t.directory in
    elim (mint_user_tokens draws issuer client realm user_id scope) [
      | err e ↦ (record t { directory = directory }, err (into_oauth_err e))
      | ok minted ↦ (
        record {
          tokens =
              if client.grants.refresh_token
              then save_refresh_token (session_refresh_token draws client realm user_id scope)
                  t.tokens
              else t.tokens;
          directory = directory;
        },
        ok (record {
          access_token = minted.0.0;
          access_token_expires_in = minted.0.1;
          id_token = minted.1;
          refresh_token = if client.grants.refresh_token then some draws.secret else none;
          scope = join scope;
          token_type = bearer;
          session_id = draws.session_id;
        }),
      )
    ]

-- A poll whose time has been recorded, by the status of the grant. The result of the writes is dropped.
unfoldable pub by_status :
    Draws
    → TokenIssuer
    → Client
    → Realm
    → String
    → DeviceGrant
    → Stores
    → Stores × Result OAuthError IssuedTokens
by_status draws issuer client realm device_code grant t = elim grant.status [
  | pending ↦ (
    record t {
      tokens = (update_device_grant (record grant { last_polled_at = some draws.now }) t.tokens).0;
    },
    err (oauth_error authorization_pending "authorization pending"),
  )
  | denied ↦ (
    record t { tokens = (delete_device_grant device_code t.tokens).0 },
    err (oauth_error access_denied "user denied"),
  )
  | expired ↦ (t, err (oauth_error expired_token "device_code expired"))
  | approved ↦ elim grant.user_id [
    | none ↦ (t, err (oauth_error server_error "device grant approved without user_id"))
    | some user_id ↦
        issue_user_tokens draws issuer client realm user_id grant.scope
          (record t { tokens = (delete_device_grant device_code t.tokens).0 })
  ]
]

-- `last_polled_at` is younger than the interval.
unfoldable pub too_soon : Draws → DeviceGrant → Bool
too_soon draws grant = elim grant.last_polled_at [
  | none ↦ false
  | some last ↦ int_ltb (draws.num_seconds draws.now last) (pos grant.interval_seconds)
]

-- The guards on a grant that was found.
unfoldable pub poll :
    Draws
    → TokenIssuer
    → Client
    → Realm
    → String
    → DeviceGrant
    → Stores
    → Stores × Result OAuthError IssuedTokens
poll draws issuer client realm device_code grant t =
    if not (nat_beq grant.realm_id realm.id) || not (nat_beq grant.client_id client.id)
    then (t, err (oauth_error invalid_grant "device_code mismatch"))
    else if ltb grant.expires_at draws.now
    then (
      record t { tokens = (delete_device_grant device_code t.tokens).0 },
      err (oauth_error expired_token "device_code expired"),
    )
    else if too_soon draws grant
    then (t, err (oauth_error slow_down "slow down"))
    else by_status draws issuer client realm device_code grant t

-- The form's `device_code` is an argument.
unfoldable pub handle_device_code :
    Draws
    → TokenIssuer
    → Client
    → Realm
    → Option String
    → Stores
    → Stores × Result OAuthError IssuedTokens
handle_device_code draws issuer client realm none t =
    (t, err (oauth_error invalid_request "missing device_code"))
handle_device_code draws issuer client realm (some device_code) t =
    elim (get_device_grant_by_device_code device_code t.tokens) [
      | err e ↦ (t, err (oauth_error invalid_grant "unknown device_code"))
      | ok grant ↦ poll draws issuer client realm device_code grant t
    ]
