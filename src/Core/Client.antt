-- ===== src/Core/Client.antt =====
-- crates/geonosis-core/src/client.rs: what the grants read of a client.
pub mod GrantTypes
use geonosis.Base.{
  ℕ, String, Bool, true, false, Option, none, some, ◌||◌, if◌then◌else◌, ◌==◌, string_eq,
}

pub data ClientKind : Type 0 where
  confidential public bearer_only service_account saml_service_provider scim_client : ClientKind

abbrev pub requires_pkce : ClientKind → Bool
requires_pkce public = true
requires_pkce _ = false

pub record GrantPolicy : Type 0 where
  pub authorization_code : Bool
  pub refresh_token : Bool
  pub client_credentials : Bool
  pub password : Bool
  pub device_code : Bool
  pub token_exchange : Bool

-- `GrantPolicy::any_enabled`
unfoldable pub any_enabled : GrantPolicy → Bool
any_enabled g =
    g.authorization_code || g.refresh_token || g.client_credentials || g.password || g.device_code
    || g.token_exchange

pub data GrantType : Type 0 where
  authorization_code refresh_token client_credentials password device_code token_exchange :
      GrantType

unfoldable pub as_token_param : GrantType → String
as_token_param authorization_code = "authorization_code"
as_token_param refresh_token = "refresh_token"
as_token_param client_credentials = "client_credentials"
as_token_param password = "password"
as_token_param device_code = "urn:ietf:params:oauth:grant-type:device_code"
as_token_param token_exchange = "urn:ietf:params:oauth:grant-type:token-exchange"

-- `GrantType::parse`
unfoldable pub parse : String → Option GrantType
parse s =
    if s == "authorization_code"
    then some authorization_code
    else if s == "refresh_token"
    then some refresh_token
    else if s == "client_credentials"
    then some client_credentials
    else if s == "password"
    then some password
    else if s == "urn:ietf:params:oauth:grant-type:device_code"
    then some device_code
    else if s == "urn:ietf:params:oauth:grant-type:token-exchange"
    then some token_exchange
    else none

-- The field of a client's policy that permits a grant.
unfoldable pub permits : GrantPolicy → GrantType → Bool
permits g authorization_code = g.authorization_code
permits g refresh_token = g.refresh_token
permits g client_credentials = g.client_credentials
permits g password = g.password
permits g device_code = g.device_code
permits g token_exchange = g.token_exchange

-- The other fields of `Client` are read by no code that is modelled.
pub record Client : Type 0 where
  pub id : ℕ
  pub realm_id : ℕ
  pub client_id : String
  pub kind : ClientKind
  pub grants : GrantPolicy
  pub enabled : Bool
