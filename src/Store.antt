-- ===== src/Store.antt =====
-- The database of timers and runs: crates/bellman-core/src/store.
pub mod Models
pub mod Timers
pub mod RunStates
pub mod Transport
pub mod Ledger
mod Examples
