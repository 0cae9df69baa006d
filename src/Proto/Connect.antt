-- ===== src/Proto/Connect.antt =====
-- hackline/crates/hackline-proto/src/connect.rs
use codeless_workspace.Base.{◌≡◌, Bool, Option, some, Text}

pub record ConnectRequest (U : Type 0) : Type 0 where
  pub request_id : U
  pub peer : Option Text

-- The field `ok` is `accepts`.
pub record ConnectAck (U : Type 0) : Type 0 where
  pub request_id : U
  pub accepts : Bool
  pub message : Option Text

-- The derived codecs, with what the exchange relies on: what was encoded is decoded to itself.
pub record ConnectWire (U : Type 0) : Type 0 where
  pub encode_request : ConnectRequest U → Text
  pub decode_request : Text → Option (ConnectRequest U)
  pub encode_ack : ConnectAck U → Text
  pub decode_ack : Text → Option (ConnectAck U)
  pub decode_request-encode_request :
      (r : ConnectRequest U) → decode_request (encode_request r) ≡ some r
  pub decode_ack-encode_ack : (a : ConnectAck U) → decode_ack (encode_ack a) ≡ some a
