-- ===== src/Core/Realm.antt =====
-- crates/geonosis-core/src/realm.rs: what the code that is modelled reads of a realm, the lifespans
-- being those of its token and session policies and the switch that of its organization policy.
use geonosis.Base.{ℕ, String, Bool}

pub record Realm : Type 0 where
  pub id : ℕ
  pub slug : String
  pub auto_join_on_domain_match : Bool
  pub sso_session_max : ℕ
  pub refresh_token_lifespan : ℕ
