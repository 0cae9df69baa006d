-- ===== src/Gateway/Tunnel/HttpRouter/Bridged.antt =====
-- bridge_with_prefix and the rest of handle_connection, of
-- hackline/crates/hackline-gateway/src/tunnel/http_router.rs.
use codeless_workspace.Base.{
  ℕ, ◌+◌, Bool, ◌&&◌, Option, none, some, List, [], ◌∷◌, if◌then◌else◌, Text, length, as_u16,
}
use codeless_workspace.Core.Bridge.{pump_up, Ends, pump_down}
use codeless_workspace.Core.Bridge.Handshake.{
  Answer, unsent, timed_out, closed, replied, replied_err,
}
use codeless_workspace.Gateway.Error.{
  zenoh, Result, err, ok, bad_request, device_rejected, ack_decode, device_ack, no_tunnel_for_host,
  bad_zid, device_ack_timeout,
}
use codeless_workspace.Gateway.Exec.{Exec, ◌>>=◌, or_raise, lift}
use codeless_workspace.Gateway.Schema.{Database, Tunnel, Org}
use codeless_workspace.Gateway.Tunnel.HttpRouter.{read_host, tunnel_for}
use codeless_workspace.Gateway.Tunnel.Session.{open_session, finalized}
use codeless_workspace.Proto.Connect.{ConnectWire, ConnectAck}
use codeless_workspace.Proto.Keyexpr.{connect, stream_gw, stream_dev}
use codeless_workspace.Proto.Uuid.{Uuids}
use codeless_workspace.Proto.Zid.{Zid, new, to_option}

-- What the socket and the session do during the bridge, and whether the put of the prefix went out.
pub record Streams : Type 0 where
  pub ends : Ends
  pub prefix_sent : Bool

-- What goes to the device: the bytes read for the Host header first.
unfoldable pub published_with : List ℕ → Streams → List Text
unfolding pump_up
published_with [] streams = (pump_up streams.ends.reads).0
published_with (b ∷ prefix) streams =
    if streams.prefix_sent then (b ∷ prefix) ∷ (pump_up streams.ends.reads).0 else []

counted_with : List ℕ → Streams → Result (ℕ × ℕ)
unfolding pump_up pump_down
counted_with [] streams = ok ((pump_up streams.ends.reads).1, (pump_down streams.ends.samples).1)
counted_with (b ∷ prefix) streams =
    if streams.prefix_sent
    then ok
        (length (b ∷ prefix) + (pump_up streams.ends.reads).1, (pump_down streams.ends.samples).1)
    else err zenoh

-- From the two declarations to the counts.
unfoldable pub pump_with : List ℕ → Streams → Result (ℕ × ℕ)
unfolding counted_with
pump_with prefix streams =
    if streams.ends.publisher_declared && streams.ends.subscriber_declared
    then counted_with prefix streams
    else err zenoh

module _ (uuids : Uuids) (wire : ConnectWire uuids.Uuid) where
  open uuids use {Uuid, to_string}
  open wire use {encode_request, decode_ack}

  unfoldable pub decoded_ack : Option (ConnectAck Uuid) → Result (ConnectAck Uuid)
  decoded_ack none = err (bad_request ack_decode)
  decoded_ack (some ack) = ok ack

  unfoldable pub ack_of : Answer → Result (ConnectAck Uuid)
  unfolding decoded_ack
  ack_of unsent = err zenoh
  ack_of timed_out = err (bad_request device_ack_timeout)
  ack_of closed = err zenoh
  ack_of (replied_err e) = err (bad_request device_ack)
  ack_of (replied bytes) = decoded_ack (decode_ack bytes)

  unfoldable pub if_accepted : Result (ConnectAck Uuid) → Result (ℕ × ℕ) → Result (ℕ × ℕ)
  if_accepted (err e) r = err e
  if_accepted (ok ack) r = if ack.accepts then r else err (bad_request device_rejected)

  -- `ask` is the query with its two time-outs; the streams come from the keys that are published on
  -- and subscribed to.
  unfoldable pub bridge_with_prefix :
      (Text → Text → Answer)
      → (Text → Text → Streams)
      → Text
      → Zid
      → ℕ
      → List ℕ
      → Uuid
      → Result (ℕ × ℕ)
  unfolding ack_of if_accepted pump_with
  bridge_with_prefix ask streams org zid port prefix request_id =
      if_accepted
        (ack_of (
          ask (connect org zid port)
            (encode_request (record { request_id = request_id; peer = none }))))
        (pump_with prefix
          (streams (stream_gw uuids org zid request_id) (stream_dev uuids org zid request_id)))

  abbrev pub bytes_or_none : Result (ℕ × ℕ) → ℕ × ℕ
  bytes_or_none (ok bytes) = bytes
  bytes_or_none (err e) = (0, 0)

  abbrev pub without : {A : Type 0} → Result A → Result (Unit {0})
  without (ok a) = ok tt
  without (err e) = err e

  module _ (ask : Text → Text → Answer) (streams : Text → Text → Streams) (peer : Text)
      (request_id : Uuid) (ts_open ts_close : ℕ) (others : Database → Database) where
    -- From the audit entry that opens the session to its end; others may write in between.
    unfoldable pub bridged : List ℕ → Tunnel → Org → Zid → Exec Database (Unit {0})
    unfolding bridge_with_prefix open_session finalized
    bridged prefix t o zid s =
        let (audit_id, s) =
          open_session t.id t.device_id (to_string request_id) (some peer) ts_open s in
        let r = bridge_with_prefix ask streams o.slug zid (as_u16 t.local_port) prefix request_id in
        (without r, finalized audit_id (bytes_or_none r, others s) ts_close)

    unfoldable pub to_host : Text → List ℕ → Exec Database (Unit {0})
    unfolding tunnel_for new bridged
    to_host host prefix s =
        (do
          (t, d, o) ← or_raise (tunnel_for s host) (bad_request no_tunnel_for_host)
          zid ← or_raise (to_option (new d.zid)) (bad_request bad_zid)
          bridged prefix t o zid)
          s

    unfoldable pub handle_connection : List (List ℕ) → Exec Database (Unit {0})
    unfolding read_host to_host
    handle_connection reads = do (host, prefix) ← lift (read_host [] reads); to_host host prefix
