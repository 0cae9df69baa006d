-- ===== src/Proto.antt =====
-- The wire crate (hackline/crates/hackline-proto/src).
pub mod Zid
pub mod Keyexpr
pub mod Msg
pub mod Uuid
pub mod Connect
pub mod AgentInfo
