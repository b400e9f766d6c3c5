-- ===== src/Events.antt =====
-- The events: crates/bellman-core/src/events.
pub mod Record
mod Examples
