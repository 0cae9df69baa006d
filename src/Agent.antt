-- ===== src/Agent.antt =====
-- The crate hackline/crates/hackline-agent.
pub mod Diag
pub mod Startup
pub mod Info
