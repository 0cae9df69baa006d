-- ===== src/Core/Bridge/Handshake.antt =====
-- The connect exchange of hackline/crates/hackline-core/src/bridge.rs: accept_bridge and
-- initiate_bridge_io_with_id.
pub mod Keys
use codeless_workspace.Base.{
  ℕ, zero, suc, ◌+◌, ◌-◌, ◌*◌, ◌/◌, ◌%◌, ◌^◌, ◌≤◌, ◌<◌, min, max, String, ◌≡◌, refl, sym, ap, ◌∙◌,
  ◌≢◌, ◌↔◌, ◌⊎◌, inl, inr, Bool, true, false, not, ◌&&◌, ◌||◌, Option, none, some, List, [], ◌∷◌,
  ◌++◌, map, reverse, arith, ltb, leb, ◌==◌, if◌then◌else◌, Bool-cases, Option-cases, Text, codes,
  ◌=t◌, =t_iff, =t_refl, =t_sound, All, length, true-ne-false, is_some, is_none, unwrap_or, ◌>>=?◌,
}
use codeless_workspace.Core.Bridge.{
  BridgeResult, done, stopped, BridgeBytes, zenoh, ack_timeout, proto, rejected, io,
}
use codeless_workspace.Proto.Connect.{ConnectWire, ConnectAck, ConnectRequest}
use codeless_workspace.Proto.Keyexpr.{stream_gw, connect, stream_dev}
use codeless_workspace.Proto.Uuid.{Uuids}
use codeless_workspace.Proto.Zid.{Zid}

-- What comes of a query: it could not be sent, a reply, an error as the reply, the end of the
-- replies, or the time-out.
pub data Answer : Type 0 where
  unsent : Answer
  replied : Text → Answer
  replied_err : Text → Answer
  closed : Answer
  timed_out : Answer

-- The connection to the local port: open, or the error that it failed with.
pub data Dial : Type 0 where
  connected : Dial
  unreachable : Text → Dial

-- The `?` on a bridge that ends, and the answer that names its stream.
unfoldable pub named : {A : Type 0} {B : Type 0} → A → BridgeResult B → BridgeResult (A × B)
named a (done b) = done (a, b)
named a (stopped e) = stopped e

module _ (uuids : Uuids) (wire : ConnectWire uuids.Uuid) where
  open uuids use {Uuid}
  open wire use {decode_request, encode_request, decode_ack, encode_ack}

  -- A bridge, from the keys that it subscribes to and publishes on.
  module _ (bridge : Text → Text → BridgeResult BridgeBytes) where
    unfoldable pub stream_of :
        Text
        → Zid
        → ConnectRequest Uuid
        → BridgeResult BridgeBytes
        → BridgeResult (Uuid × Option Text)
    stream_of org zid req (done bytes) = done (req.request_id, req.peer)
    stream_of org zid req (stopped e) = stopped e

    -- After the connection: the replies, with their key, and the result. The last argument is
    -- whether the reply that accepts goes out; one that refuses may be lost.
    unfoldable pub answer_to :
        Text
        → Zid
        → ℕ
        → ConnectRequest Uuid
        → Dial
        → Bool
        → List (Text × Text) × BridgeResult (Uuid × Option Text)
    unfolding stream_of
    answer_to org zid port req (unreachable e) sent = (
      if sent
          then (
            connect org zid port,
            encode_ack (record {
              request_id = req.request_id;
              accepts = false;
              message = some (codes "tcp connect failed: " ++ e);
            }),
          )
            ∷ []
          else [],
      stopped io,
    )
    answer_to org zid port req connected false = ([], stopped zenoh)
    answer_to org zid port req connected true = (
      (
        connect org zid port,
        encode_ack (record { request_id = req.request_id; accepts = true; message = none }),
      )
          ∷ [],
      stream_of org zid req (
          bridge (stream_gw uuids org zid req.request_id)
            (stream_dev uuids org zid req.request_id)),
    )

    unfoldable pub accepted_as :
        Text
        → Zid
        → ℕ
        → Option (ConnectRequest Uuid)
        → Dial
        → Bool
        → List (Text × Text) × BridgeResult (Uuid × Option Text)
    unfolding answer_to
    accepted_as org zid port none dial sent = ([], stopped proto)
    accepted_as org zid port (some req) dial sent = answer_to org zid port req dial sent

    -- accept_bridge; a query without a payload is decoded as the empty text
    unfoldable pub accept_bridge :
        Text
        → Zid
        → ℕ
        → Option Text
        → Dial
        → Bool
        → List (Text × Text) × BridgeResult (Uuid × Option Text)
    unfolding accepted_as
    accept_bridge org zid port payload dial sent =
        accepted_as org zid port (decode_request (unwrap_or payload [])) dial sent

    -- The two time-outs, the reply and its decoding.
    unfoldable pub ack_of : Answer → BridgeResult (ConnectAck Uuid)
    ack_of unsent = stopped zenoh
    ack_of timed_out = stopped ack_timeout
    ack_of closed = stopped zenoh
    ack_of (replied_err e) = stopped (rejected e)
    ack_of (replied bytes) = elim (decode_ack bytes) as (λ _. BridgeResult (ConnectAck Uuid)) [
      | none ↦ stopped proto
      | some ack ↦ done ack
    ]

    unfoldable pub proceed :
        Text → Zid → Uuid → BridgeResult (ConnectAck Uuid) → BridgeResult (Uuid × BridgeBytes)
    unfolding named
    proceed org zid request_id (stopped e) = stopped e
    proceed org zid request_id (done ack) =
        if ack.accepts
        then named request_id
            (bridge (stream_dev uuids org zid request_id) (stream_gw uuids org zid request_id))
        else stopped (rejected (unwrap_or ack.message []))

    -- initiate_bridge_io_with_id; `ask` is the query with its two time-outs
    unfoldable pub initiate_bridge :
        Text
        → Zid
        → ℕ
        → Option Text
        → Uuid
        → (Text → Text → Answer)
        → BridgeResult (Uuid × BridgeBytes)
    unfolding ack_of proceed
    initiate_bridge org zid port peer_addr request_id ask = proceed org zid request_id (
        ack_of (
          ask (connect org zid port)
            (encode_request (record { request_id = request_id; peer = peer_addr }))))
