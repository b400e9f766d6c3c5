-- ===== src/Actions.antt =====
-- Running the actions of timers: crates/bellman-core/src/actions.
pub mod Limiter
mod Examples
