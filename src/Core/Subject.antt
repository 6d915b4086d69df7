-- ===== src/Core/Subject.antt =====
-- crates/geonosis-core/src/subject.rs: who was authenticated.
use geonosis.Base.{ℕ, String, Option, List}

pub data Subject : Type 0 where
  local : ℕ → Subject
  external : String → String → Option ℕ → Subject
  service_account : ℕ → Subject
  agent : ℕ → Subject → List String → Subject
