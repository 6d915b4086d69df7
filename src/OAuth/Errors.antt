-- ===== src/OAuth/Errors.antt =====
-- crates/geonosis-protocol-oauth/src/error.rs: the error codes of the OAuth endpoints.
use geonosis.Base.{String, Option, none}

pub data OAuthErrorCode : Type 0 where
  invalid_request unauthorized_client access_denied unsupported_response_type invalid_scope :
      OAuthErrorCode
  server_error temporarily_unavailable interaction_required login_required : OAuthErrorCode
  account_selection_required consent_required invalid_request_uri invalid_request_object :
      OAuthErrorCode
  request_not_supported request_uri_not_supported registration_not_supported : OAuthErrorCode
  invalid_client invalid_grant unsupported_grant_type authorization_pending slow_down :
      OAuthErrorCode
  expired_token : OAuthErrorCode

pub record OAuthError : Type 0 where
  pub code : OAuthErrorCode
  pub description : String
  pub uri : Option String

-- `OAuthError::new`
abbrev pub oauth_error : OAuthErrorCode → String → OAuthError
oauth_error code description = record { code = code; description = description; uri = none }
