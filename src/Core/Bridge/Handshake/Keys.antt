-- ===== src/Core/Bridge/Handshake/Keys.antt =====
-- Both sides of a connect exchange, one against the other.
use codeless_workspace.Base.{
  ℕ, ◌≡◌, refl, Bool, true, false, Option, none, some, List, [], ◌∷◌, ◌++◌, Text, codes,
}
use codeless_workspace.Core.Bridge.{BridgeResult, BridgeBytes, stopped, rejected, io}
use codeless_workspace.Core.Bridge.Handshake.{
  initiate_bridge, Answer, accept_bridge, accepted_as, timed_out, answer_to, Dial, replied, ack_of,
  proceed, connected, named, stream_of, unreachable,
}
use codeless_workspace.Proto.Connect.{ConnectWire, ConnectRequest}
use codeless_workspace.Proto.Keyexpr.{stream_dev, stream_gw}
use codeless_workspace.Proto.Uuid.{Uuids}
use codeless_workspace.Proto.Zid.{Zid}

module _ (uuids : Uuids) (wire : ConnectWire uuids.Uuid) where
  open uuids use {Uuid}
  open wire use {encode_request, decode_request-encode_request, decode_ack-encode_ack}

  -- The reply that the gateway takes: the first.
  abbrev pub first_reply : List (Text × Text) → Answer
  first_reply [] = timed_out
  first_reply ((ke, bytes) ∷ replies) = replied bytes

  -- The gateway's query, answered by the agent of the device.
  abbrev pub asks :
      (Text → Text → BridgeResult BridgeBytes) → Text → Zid → ℕ → Dial → Bool → Text → Text → Answer
  asks agent org zid port dial sent ke payload =
      first_reply (accept_bridge uuids wire agent org zid port (some payload) dial sent).0

  -- The gateway against the agent: where the port is open, both bridge the same stream with their
  -- keys crossed, the agent knows the gateway's id and the peer, and the gateway answers with the
  -- id; where it is not, the gateway reports why and neither side bridges anything.
  pub initiate_bridge-accept_bridge :
      (gateway agent : Text → Text → BridgeResult BridgeBytes) (org : Text) (zid : Zid) (port : ℕ)
      (peer : Option Text) (id : Uuid) (e : Text)
      → (initiate_bridge uuids wire gateway org zid port peer id
            (asks agent org zid port connected true)
          ≡ named id (gateway (stream_dev uuids org zid id) (stream_gw uuids org zid id)))
        × ((accept_bridge uuids wire agent org zid port
              (some (encode_request (record { request_id = id; peer = peer })))
              connected
              true).1
            ≡ stream_of uuids wire agent org zid
                (record { request_id = id; peer = peer })
                (agent (stream_gw uuids org zid id) (stream_dev uuids org zid id)))
        × (initiate_bridge uuids wire gateway org zid port peer id
              (asks agent org zid port (unreachable e) true)
            ≡ stopped (rejected (codes "tcp connect failed: " ++ e)))
        × ((accept_bridge uuids wire agent org zid port
              (some (encode_request (record { request_id = id; peer = peer })))
              (unreachable e)
              true).1
            ≡ stopped io)
  unfolding initiate_bridge accept_bridge accepted_as answer_to ack_of proceed
  initiate_bridge-accept_bridge gateway agent org zid port peer id e =
      let r : ConnectRequest Uuid = record { request_id = id; peer = peer } in
      (
        rw
            (
              decode_request-encode_request r,
              decode_ack-encode_ack (record { request_id = id; accepts = true; message = none }),
            )
            refl,
        rw (decode_request-encode_request r) refl,
        rw
            (
              decode_request-encode_request r,
              decode_ack-encode_ack (record {
                request_id = id;
                accepts = false;
                message = some (codes "tcp connect failed: " ++ e);
              }),
            )
            refl,
        rw (decode_request-encode_request r) refl,
      )
