-- ===== src/Gateway/Auth.antt =====
-- hackline/crates/hackline-gateway/src/auth: who calls, and for which device.
pub mod Scope
pub mod Middleware
