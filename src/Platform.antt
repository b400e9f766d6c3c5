-- ===== src/Platform.antt =====
-- The machine that the program runs on: crates/bellman-core/src/platform.
pub mod Wake
mod Examples
