-- ===== src/Flow.antt =====
-- The flow engine, crates/geonosis-flow.
pub mod Json
pub mod Dsl
pub mod State
pub mod Guard
pub mod Compile
pub mod Executor
pub mod DryRun
mod Examples
