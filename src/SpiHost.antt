-- ===== src/SpiHost.antt =====
-- crates/geonosis-spi-host: which provider of an interface runs, and in what order. The runtimes that
-- call WebAssembly are not modelled: a provider's call is an argument of the router.
pub mod WitInterface
pub mod Dispatch
pub mod Registry
pub mod Router
pub mod Examples
