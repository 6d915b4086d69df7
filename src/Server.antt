-- ===== src/Server.antt =====
-- crates/geonosis-server: what guards the endpoints.
pub mod RateLimit
pub mod AutoJoin
pub mod NameId
pub mod DevicePoll
pub mod Password
mod Examples
