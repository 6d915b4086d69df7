-- ===== src/Core/User.antt =====
-- crates/geonosis-core/src/user.rs: what the code that is modelled reads of a user.
use geonosis.Base.{ℕ, String, Bool, Option}

pub record User : Type 0 where
  pub id : ℕ
  pub realm_id : ℕ
  pub username : String
  pub email : Option String
  pub email_verified : Bool
  pub enabled : Bool
  pub failed_attempts : ℕ
  pub locked_until : Option ℕ
  pub last_failed_at : Option ℕ
