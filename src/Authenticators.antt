-- ===== src/Authenticators.antt =====
-- crates/geonosis-authenticators: what runs around an authenticator.
pub mod BruteForce
mod Examples
