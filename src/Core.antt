-- ===== src/Core.antt =====
-- The crate hackline/crates/hackline-core.
pub mod Bridge
