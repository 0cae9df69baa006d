-- ===== src/Gateway/Delivery.antt =====
-- hackline/crates/hackline-gateway/src/cmd_delivery.rs, less the tasks that loop over it.
pub mod Pushes
pub mod Stamps
pub mod Marks
pub mod Drained
pub mod Acked
pub mod Tasks
use codeless_workspace.Base.{
  ℕ, zero, suc, ◌+◌, ◌-◌, ◌*◌, ◌/◌, ◌%◌, ◌^◌, ◌≤◌, ◌<◌, min, max, String, ◌≡◌, refl, sym, ap, ◌∙◌,
  ◌≢◌, ◌↔◌, ◌⊎◌, inl, inr, Bool, true, false, not, ◌&&◌, ◌||◌, Option, none, some, List, [], ◌∷◌,
  ◌++◌, map, reverse, arith, ltb, leb, ◌==◌, if◌then◌else◌, Bool-cases, Option-cases, Text, codes,
  ◌=t◌, =t_iff, =t_refl, =t_sound, All, length, true-ne-false, is_some, is_none, unwrap_or, ◌>>=?◌,
  ℤ, pos,
}
use codeless_workspace.Gateway.Db.CmdOutbox.{CmdRow, list_pending, mark_delivered, record_ack}
use codeless_workspace.Gateway.Db.Devices.{get_with_org_slug}
use codeless_workspace.Gateway.Error.{
  Result, ok, err, bad_request, unparsable_keyexpr, bad_envelope, cmd_id_mismatch,
}
use codeless_workspace.Gateway.Exec.{
  Exec, gets, or_raise, require, modify, pure, attempt, ◌>>=◌, ◌>>◌,
}
use codeless_workspace.Gateway.Json.{Json}
use codeless_workspace.Gateway.Schema.{Database, Device, OutboxRow}
use codeless_workspace.Proto.Keyexpr.{msg_cmd, parse_msg_cmd_ack_keyexpr}
use codeless_workspace.Proto.Msg.{CmdEnvelope, CmdAck, MsgEnvelope, cmd_result_str}
use codeless_workspace.Proto.Uuid.{Uuids}
use codeless_workspace.Proto.Zid.{new, to_option}

-- The wire, which crates stand for: the derived encoding of an envelope, the derived decoding of an
-- acknowledgement, and whether a put on the session succeeds.
pub record Wire (U V : Type 0) : Type 0 where
  pub encode_cmd : CmdEnvelope U V → Option Text
  pub decode_ack : Text → Option (CmdAck U)
  pub put : Text → Text → Bool

module _ (json : Json) (uuids : Uuids) where
  open json use {Value}
  open uuids use {Uuid, to_string, parse_str}

  module _ (wire : Wire Uuid Value) where
    -- handle_ack. Ids are equal when their printed forms are.
    unfoldable pub handle_ack : Text → Text → ℕ → Exec Database (Unit {0})
    unfolding parse_msg_cmd_ack_keyexpr record_ack cmd_result_str ◌=t◌
    handle_ack ke payload now_ms = do
      (_, _, cmd_id) ←
          or_raise (parse_msg_cmd_ack_keyexpr uuids ke) (bad_request unparsable_keyexpr)
      ack ← or_raise (wire.decode_ack payload) (bad_request bad_envelope)
      require (to_string ack.cmd_id =t to_string cmd_id) (bad_request cmd_id_mismatch)
      _ ← record_ack (to_string ack.cmd_id) (cmd_result_str ack.result) ack.detail now_ms
      pure tt

    unfoldable pub envelope_of : Uuid → CmdRow Value → CmdEnvelope Uuid Value
    envelope_of cmd_id r = record {
      cmd_id = cmd_id;
      topic = r.row.topic;
      enqueued_at = r.row.enqueued_at;
      expires_at = r.row.expires_at;
      envelope = record {
        id = cmd_id;
        ts = pos r.row.enqueued_at;
        content_type = r.row.content_type;
        headers = [];
        payload = r.payload;
      };
    }

    -- The message for a row, from its device; none where the loop body continues.
    unfoldable pub message_for : CmdRow Value → Device × Text → Option (Text × Text)
    unfolding envelope_of new
    message_for r (device, org_slug) = to_option (new device.zid) >>=? λ zid.
        parse_str r.row.cmd_id >>=? λ cmd_id. wire.encode_cmd (envelope_of cmd_id r) >>=? λ bytes.
        some (msg_cmd org_slug zid r.row.topic, bytes)

    looked_up : CmdRow Value → Result (Device × Text) → Option (Text × Text)
    unfolding message_for
    looked_up r (err e) = none
    looked_up r (ok pair) = message_for r pair

    publish : CmdRow Value → Option (Text × Text) → ℕ → Exec Database (List (Text × Text))
    unfolding mark_delivered
    publish r none now_ms s = (ok [], s)
    publish r (some (ke, bytes)) now_ms s =
        if wire.put ke bytes
        then (ok ((ke, bytes) ∷ []), (attempt (mark_delivered r.row.cmd_id now_ms) s).1)
        else (ok [], s)

    -- `clock` is the time that is read for the delivery of a command.
    module _ (clock : Text → ℕ) where
      -- The body of the loop: what it published.
      pub push_row : CmdRow Value → Exec Database (List (Text × Text))
      unfolding publish looked_up get_with_org_slug
      push_row r s =
          publish r (looked_up r (get_with_org_slug r.row.device_id s).0) (clock r.row.cmd_id) s

      pub push_rows : List (CmdRow Value) → Exec Database (List (Text × Text))
      unfolding push_row
      push_rows [] = pure []
      push_rows (r ∷ rs) = do sent ← push_row r; rest ← push_rows rs; pure (sent ++ rest)

      -- drain_pending, started at `now_ms`: the messages that it published, in order.
      unfoldable pub drain_pending : ℕ → Exec Database (List (Text × Text))
      unfolding list_pending push_rows
      drain_pending now_ms = do rows ← list_pending json now_ms; push_rows rows
