-- ===== src/OAuth.antt =====
-- crates/geonosis-protocol-oauth: the grants of the token endpoint.
pub mod Refresh
pub mod Bytes
pub mod Pkce
pub mod Errors
pub mod Grants
mod Examples
