-- ===== src/Core/Session.antt =====
-- crates/geonosis-core/src/session.rs: the single sign-on session of a browser.
use geonosis.Base.{ℕ, String, Bool, Option, List}

-- `AuthnLevel` of common.rs
pub data AuthnLevel : Type 0 where
  anonymous single mfa hardware_bound : AuthnLevel

pub record ClientSessionRef : Type 0 where
  pub client_id : ℕ
  pub last_seen_at : ℕ
  pub frontchannel_logout : Bool
  pub backchannel_logout : Bool

pub record Session : Type 0 where
  pub id : String
  pub realm_id : ℕ
  pub user_id : ℕ
  pub authn_level : AuthnLevel
  pub idp_alias : Option String
  pub started_at : ℕ
  pub last_seen_at : ℕ
  pub expires_at : ℕ
  pub clients : List ClientSessionRef
