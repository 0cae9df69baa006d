-- ===== src/Gateway.antt =====
-- The gateway crate (hackline/crates/hackline-gateway/src).
pub mod Error
pub mod Exec
pub mod Json
pub mod Schema
pub mod Migrations
pub mod Config
pub mod Db
pub mod Auth
pub mod RttCache
pub mod Metrics
pub mod Delivery
pub mod FanIn
pub mod Liveliness
pub mod State
pub mod Api
pub mod Tunnel
