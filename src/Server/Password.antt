-- ===== src/Server/Password.antt =====
-- crates/geonosis-server/src/handlers/token.rs: the password grant. The form is a map of its fields, and
-- the check of a password against a stored hash is an argument. The dummy check that a refusal costs is
-- left out, as it has no effect but time.
pub mod Verified
mod Examples
use geonosis.Base.{
  ℕ, String, Bool, true, false, not, Option, none, some, List, [], Result, ok, err, ok_or, ◌>>=◌,
  if◌then◌else◌, Map, lookup, string_eq,
}
use geonosis.Core.Client.{Client}
use geonosis.Core.Realm.{Realm}
use geonosis.Core.User.{User}
use geonosis.Core.Scope.{parse_scope_string}
use geonosis.Storage.Directory.{Directory, get_user_by_username, get_password_hash}
use geonosis.OAuth.Errors.{OAuthError, oauth_error, invalid_request, invalid_grant}
use geonosis.OAuth.Grants.{IssuedTokens, TokenIssuer}
use geonosis.Server.DevicePoll.{Stores, Draws, issue_user_tokens}

pub record PasswordForm : Type 0 where
  pub username : String
  pub password : String
  pub scope : List String

unfoldable pub scope_or_openid : Option String → String
scope_or_openid none = "openid"
scope_or_openid (some s) = s

unfoldable pub parse_scope : String → Result OAuthError (List String)
parse_scope s = elim (parse_scope_string s) [
  | err e ↦ err (oauth_error invalid_request e)
  | ok scope ↦ ok scope
]

-- What the handler reads of the form.
unfoldable pub password_form : Map String String → Result OAuthError PasswordForm
password_form form =
    ok_or (lookup "username" form) (oauth_error invalid_request "missing username") >>= λ username.
    ok_or (lookup "password" form) (oauth_error invalid_request "missing password") >>= λ password.
    parse_scope (scope_or_openid (lookup "scope" form)) >>= λ scope.
    ok (record { username = username; password = password; scope = scope })

abbrev pub invalid_login : OAuthError
invalid_login = oauth_error invalid_grant "invalid username or password"

-- `verify_password(..).unwrap_or(false)`
unfoldable pub verifies : (String → String → Result String Bool) → String → String → Bool
verifies verify_password password phc = elim (verify_password password phc) [
  | err e ↦ false
  | ok b ↦ b
]

-- The user that the name and the password are of.
unfoldable pub password_user :
    (String → String → Result String Bool)
    → Realm
    → PasswordForm
    → Directory
    → Result OAuthError User
password_user verify_password realm form t = elim (get_user_by_username realm.id form.username t) [
  | err e ↦ err invalid_login
  | ok user ↦
      if not user.enabled then err invalid_login else elim (get_password_hash realm.id user.id t) [
        | err e ↦ err invalid_login
        | ok phc ↦
            if not (verifies verify_password form.password phc) then err invalid_login else ok user
      ]
]

unfoldable pub handle_password :
    (String → String → Result String Bool)
    → Draws
    → TokenIssuer
    → Client
    → Realm
    → Map String String
    → Stores
    → Stores × Result OAuthError IssuedTokens
handle_password verify_password draws issuer client realm fields t = elim (password_form fields) [
  | err e ↦ (t, err e)
  | ok form ↦ elim (password_user verify_password realm form t.directory) [
    | err e ↦ (t, err e)
    | ok user ↦ issue_user_tokens draws issuer client realm user.id form.scope t
  ]
]
