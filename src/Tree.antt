-- ===== src/Tree.antt =====
-- The fire of a timer: crates/bellman-core/src/tree/mod.rs.
pub mod Overlap
pub mod Fire
mod Examples
