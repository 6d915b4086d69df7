-- ===== src/Core.antt =====
-- The entities of crates/geonosis-core that several parts share.
pub mod Subject
pub mod Client
pub mod Token
pub mod RedirectUri
pub mod User
pub mod Scope
pub mod Realm
pub mod Session
pub mod Organization
mod Examples
