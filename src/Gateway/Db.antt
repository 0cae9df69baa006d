-- ===== src/Gateway/Db.antt =====
-- The repositories (hackline/crates/hackline-gateway/src/db): one action for each function, on the
-- tables of `Schema`. `unixepoch()` and `now_ms()` are arguments.
pub mod Token
pub mod Orgs
pub mod Users
pub mod Devices
pub mod Tunnels
pub mod Messages
pub mod CmdOutbox
pub mod Claim
pub mod Audit
