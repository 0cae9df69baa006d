-- ===== src/Gateway/Api.antt =====
-- The handlers of hackline/crates/hackline-gateway/src/api. Each `spawn_blocking` closure is a step
-- on the database; requests are taken one after the other.
pub mod Detail
pub mod Cmd
pub mod Devices
pub mod Tunnels
pub mod Users
pub mod Orgs
pub mod Claim
pub mod AuditLog
pub mod History
pub mod Glob
pub mod Streams
pub mod Calls
pub mod Fleet
pub mod Info
