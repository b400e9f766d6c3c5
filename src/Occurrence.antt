-- ===== src/Occurrence.antt =====
-- Schedules: crates/bellman-core/src/occurrence/. `Weekdays` and `Kind` are kind.rs, `Civil` is
-- civil.rs with policy.rs, `Schedule` is schedule.rs; `Chrono` is what they use of chrono and croner.
pub mod Chrono
pub mod Weekdays
pub mod Kind
pub mod Civil
pub mod Schedule
pub mod Candidates
pub mod NextFire
pub mod Examples
