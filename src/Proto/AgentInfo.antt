-- ===== src/Proto/AgentInfo.antt =====
-- hackline/crates/hackline-proto/src/agent_info.rs
use codeless_workspace.Base.{ℕ, ◌≡◌, Option, some, List, Text}

pub record AgentInfo : Type 0 where
  pub zid : Text
  pub version : Text
  pub allowed_ports : List ℕ
  pub uptime_s : ℕ

-- The derived codec, with what the info query relies on.
pub record InfoWire : Type 0 where
  pub encode : AgentInfo → Option Text
  pub decode : Text → Option AgentInfo
  pub decode-encode : (i : AgentInfo) {bytes : Text} → encode i ≡ some bytes → decode bytes ≡ some i
