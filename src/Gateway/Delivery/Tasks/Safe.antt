-- ===== src/Gateway/Delivery/Tasks/Safe.antt =====
-- The outbox stays in order in every interleaving of the tasks and the handlers.
use codeless_workspace.Base.{ℕ, inl, inr, Option, none, some, Bool-cases, Text, ◌=t◌}
use codeless_workspace.Gateway.Api.Detail.{Details}
use codeless_workspace.Gateway.Db.Audit.Writes.{AuditOnly, insert-AuditOnly}
use codeless_workspace.Gateway.Db.CmdOutbox.{record_ack, enqueue, cancel, CmdRow}
use codeless_workspace.Gateway.Db.CmdOutbox.Inv.{
  record_ack-IsOutbox, IsOutbox, mark_delivered-IsOutbox, enqueue-IsOutbox, cancel-IsOutbox,
}
use codeless_workspace.Gateway.Delivery.{Wire, handle_ack, push_row, publish}
use codeless_workspace.Gateway.Delivery.Tasks.{
  here, Plane, push_one, Step, woken, Request, Reach, sends, Turn, request, after, push, turn, rest,
  cancels, fetch, wake, timer, acks, stores, drops, audits, wakes,
}
use codeless_workspace.Gateway.Delivery.Tasks.Requests.{
  send-Preserves, cancel_handler-Preserves, Kept,
}
use codeless_workspace.Gateway.Error.{
  bad_request, unparsable_keyexpr, bad_envelope, cmd_id_mismatch,
}
use codeless_workspace.Gateway.Exec.{or_raise, require, Exec}
use codeless_workspace.Gateway.Exec.Preserves.{
  Preserves, continue-Preserves, or_raise-Preserves, require-Preserves,
}
use codeless_workspace.Gateway.Json.{Json}
use codeless_workspace.Gateway.Schema.{Database}
use codeless_workspace.Gateway.State.{notify, AppState, on_db}
use codeless_workspace.Proto.Keyexpr.{parse_msg_cmd_ack_keyexpr}
use codeless_workspace.Proto.Msg.{cmd_result_str}
use codeless_workspace.Proto.Uuid.{Uuids}
use codeless_workspace.Gateway.Db.Audit

unfoldable InOrder : AppState → Type 0
InOrder s = IsOutbox s.database.cmd_outbox

unfoldable Tidy : Database → Type 0
Tidy s = IsOutbox s.cmd_outbox

on_db-InOrder : {A : Type 0} (m : Exec Database A) → Preserves Tidy m → Preserves InOrder (on_db m)
unfolding InOrder Tidy
on_db-InOrder m k s h = k s.database h

notify-InOrder : (s : AppState) → InOrder s → InOrder (notify s)
unfolding InOrder
notify-InOrder s h = h

audited-Tidy : (s s' : Database) → AuditOnly s s' → Tidy s → Tidy s'
unfolding Tidy
audited-Tidy s s' e h = rw e h

cancel-Tidy : (cmd_id : Text) → Preserves Tidy (cancel cmd_id)
unfolding Tidy
cancel-Tidy cmd_id s h = cancel-IsOutbox cmd_id s h

insert-Tidy :
    (user_id device_id tunnel_id : Option ℕ) (action : Text) (detail : Option Text) (epoch : ℕ)
    → Preserves Tidy (Audit.insert user_id device_id tunnel_id action detail epoch)
insert-Tidy user_id device_id tunnel_id action detail epoch s h =
    audited-Tidy s (Audit.insert user_id device_id tunnel_id action detail epoch s).1
      (insert-AuditOnly user_id device_id tunnel_id action detail epoch s) h

module _ (json : Json) (uuids : Uuids) (details : Details) (wire : Wire uuids.Uuid json.Value) where
  open json use {Value}
  open uuids use {to_string}

  enqueue-Tidy :
      (cmd_id : Text) (d : ℕ) (topic ct : Text) (v : Value) (t e : ℕ)
      → Preserves Tidy (enqueue json cmd_id d topic ct v t e)
  unfolding Tidy
  enqueue-Tidy cmd_id d topic ct v t e s h = enqueue-IsOutbox json cmd_id d topic ct v t e s h

  in_order : Kept json Tidy InOrder
  in_order = record {
    on = λ A m. on_db-InOrder m;
    told = notify-InOrder;
    audited = audited-Tidy;
    queued = enqueue-Tidy;
    dropped = cancel-Tidy;
  }

  record_ack-Tidy :
      (c result : Text) (detail : Option Text) (now : ℕ)
      → Preserves Tidy (record_ack c result detail now)
  unfolding Tidy
  record_ack-Tidy c result detail now s h = record_ack-IsOutbox c result detail now s h

  handle_ack-Tidy :
      (ke payload : Text) (now : ℕ) → Preserves Tidy (handle_ack json uuids wire ke payload now)
  unfolding handle_ack record_ack
  handle_ack-Tidy ke payload now s h =
      continue-Preserves Tidy
        (or_raise (parse_msg_cmd_ack_keyexpr uuids ke) (bad_request unparsable_keyexpr) s) _
        (or_raise-Preserves Tidy (parse_msg_cmd_ack_keyexpr uuids ke)
          (bad_request unparsable_keyexpr) s h)
        (λ parts s h.
          continue-Preserves Tidy (or_raise (wire.decode_ack payload) (bad_request bad_envelope) s)
            _ (or_raise-Preserves Tidy (wire.decode_ack payload) (bad_request bad_envelope) s h)
            (λ ack s h.
              continue-Preserves Tidy
                (require (to_string ack.cmd_id =t to_string parts.2) (bad_request cmd_id_mismatch)
                  s)
                _
                (require-Preserves Tidy (to_string ack.cmd_id =t to_string parts.2)
                  (bad_request cmd_id_mismatch) s h)
                (λ _ s h.
                  continue-Preserves Tidy
                    (record_ack (to_string ack.cmd_id) (cmd_result_str ack.result) ack.detail now s)
                    _
                    (record_ack-Tidy (to_string ack.cmd_id) (cmd_result_str ack.result) ack.detail
                      now s h)
                    (λ _ s h. h))))

  publish-Tidy :
      (x : CmdRow Value) (o : Option (Text × Text)) (at : ℕ)
      → Preserves Tidy (publish json uuids wire x o at)
  unfolding publish Tidy
  publish-Tidy x none at s h = h
  publish-Tidy x (some (ke, bytes)) at s h = elim (Bool-cases (wire.put ke bytes)) [
    | inl e ↦ rw e (mark_delivered-IsOutbox x.row.cmd_id at s h)
    | inr e ↦ rw e h
  ]

  push_row-Tidy :
      (clock : Text → ℕ) (x : CmdRow Value) → Preserves Tidy (push_row json uuids wire clock x)
  unfolding push_row
  push_row-Tidy clock x s h = publish-Tidy x _ (clock x.row.cmd_id) s h

  Request-InOrder :
      {p q : Plane Value} → Request json uuids details wire p q → InOrder p.app → InOrder q.app
  Request-InOrder {p} (stores cmd_id device_id topic ct payload now ends) h =
      on_db-InOrder (enqueue json cmd_id device_id topic ct payload now ends)
        (enqueue-Tidy cmd_id device_id topic ct payload now ends) p.app h
  Request-InOrder {p} (drops cmd_id) h = on_db-InOrder (cancel cmd_id) (cancel-Tidy cmd_id) p.app h
  Request-InOrder {p} (audits user_id device_id tunnel_id action detail epoch) h =
      on_db-InOrder (Audit.insert user_id device_id tunnel_id action detail epoch)
        (insert-Tidy user_id device_id tunnel_id action detail epoch) p.app h
  Request-InOrder {p} wakes h = notify-InOrder p.app h
  Request-InOrder {p} (sends user device_id topic body cmd_id now epoch) h =
      send-Preserves json details Tidy InOrder in_order user device_id topic body cmd_id now epoch
        p.app h
  Request-InOrder {p} (cancels user cmd_id now epoch) h =
      cancel_handler-Preserves json details Tidy InOrder in_order user cmd_id now epoch p.app h
  Request-InOrder {p} (acks ke payload now) h =
      on_db-InOrder (handle_ack json uuids wire ke payload now) (handle_ack-Tidy ke payload now)
        p.app h

  Turn-InOrder :
      {p q : Plane Value} → Turn json uuids details wire p q → InOrder p.app → InOrder q.app
  unfolding push_one woken InOrder
  Turn-InOrder {p} (push x rows at e) h = unfold Tidy in push_row-Tidy (λ _. at) x p.app.database h
  Turn-InOrder (rest e) h = h
  Turn-InOrder (wake e n) h = h
  Turn-InOrder (timer e) h = h

  Step-InOrder :
      {p q : Plane Value} → Step json uuids details wire p q → InOrder p.app → InOrder q.app
  Step-InOrder (request r) h = Request-InOrder r h
  Step-InOrder (turn t) h = Turn-InOrder t h
  Step-InOrder (fetch now e) h = h

  -- In every interleaving of the handlers that send and cancel commands, a database closure at a
  -- time, the task of acknowledgements and the pusher, a row of a drain at a time, the outbox stays
  -- in order if it was: no device above its cap, no command id twice, ascending rowids, sound rows.
  pub Reach-InOrder :
      {p q : Plane Value}
      → IsOutbox p.app.database.cmd_outbox
      → Reach json uuids details wire p q
      → IsOutbox q.app.database.cmd_outbox
  unfolding InOrder
  Reach-InOrder h here = h
  Reach-InOrder h (after r s) = Step-InOrder s (Reach-InOrder h r)
