-- ===== src/Gateway/Tunnel.antt =====
-- hackline/crates/hackline-gateway/src/tunnel: the host router, and the sessions of the listeners.
pub mod HttpRouter
pub mod Session
pub mod Manager
