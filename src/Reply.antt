-- ===== src/Reply.antt =====
-- The replies of applications: crates/bellman-core/src/reply.
pub mod Document
pub mod Engine
pub mod Lines
pub mod Apply
pub mod Ingest
pub mod Deadlines
pub mod Publication
pub mod Moves
pub mod Lifecycle
pub mod Examples
