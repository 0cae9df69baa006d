-- ===== src/Gateway/Api/Detail.antt =====
-- The `detail` of an audit entry, which the handlers build with `serde_json::json!`.
use codeless_workspace.Base.{ℕ, Option, Text, ℤ}

pub data Detail : Type 0 where
  cmd_sent : (cmd_id topic : Text) → Detail
  cmd_cancelled : (cmd_id : Text) → Detail
  device_created : (device_id : ℕ) (zid label : Text) → Detail
  device_deleted : (device_id : ℕ) (zid : Text) → Detail
  tunnel_created :
      (tunnel_id device_id : ℕ) (kind : Text) (local_port : ℤ) (public_hostname : Option Text)
      (public_port : Option ℤ)
      → Detail
  tunnel_deleted : (tunnel_id : ℕ) → Detail
  api_called : (topic outcome : Text) → Detail

-- `Value::to_string`
pub record Details : Type 0 where
  pub render : Detail → Text
