-- ===== src/Storage.antt =====
-- crates/geonosis-storage, the in-memory backend.
pub mod Errors
pub mod Tokens
pub mod Indexed
pub mod Directory
pub mod Access
pub mod Orgs
pub mod Flows
pub mod Federation
mod Examples
