-- ===== src/Scheduler.antt =====
-- The scheduler: crates/bellman-core/src/scheduler.
pub mod Jitter
pub mod State
pub mod Misfire
pub mod Horizon
pub mod Delivery
pub mod Due
pub mod Drain
pub mod Rebuild
pub mod Drive
mod Examples
