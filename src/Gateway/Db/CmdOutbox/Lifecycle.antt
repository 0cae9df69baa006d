-- ===== src/Gateway/Db/CmdOutbox/Lifecycle.antt =====
-- What the operations of db/cmd_outbox.rs do to a command that was delivered.
use codeless_workspace.Base.{
  ℕ, ◌+◌, ◌≡◌, refl, ap, ◌∙◌, inl, inr, Bool, true, ◌&&◌, Option, some, List, [], ◌∷◌, arith,
  if◌then◌else◌, Bool-cases, Text, is_some, find_row, find-append_kept, find-update,
  find-delete_kept,
}
use codeless_workspace.Gateway.Schema.{Database, OutboxRow}
use codeless_workspace.Gateway.Json.{Json}
use codeless_workspace.Gateway.Db.CmdOutbox.{
  has_cmd_id, undelivered, coalesce, enqueue, mark_delivered, record_ack, cancel, check_fails,
  acknowledge,
}
use codeless_workspace.Gateway.Db.CmdOutbox.Rows.{enqueue-Enqueued}
use codeless_workspace.Gateway.Db.CmdOutbox.Runs.{
  OutboxCall, enqueues, delivers, acks, cancels, step, run,
}
use codeless_workspace.Gateway.Db.CmdOutbox.Effects.{row_of}

-- The row of the command is there, was delivered at that time, and is acknowledged if it was.
pub record WasDelivered (s : Database) (c : Text) (at : ℕ) (acked : Bool) : Type 0 where
  pub row : OutboxRow
  pub found : row_of s c ≡ some row
  pub stamp : row.delivered_at ≡ some at
  pub answered : acked ≡ true → is_some row.ack_at ≡ true

module _ (json : Json) (s : Database) (c : Text) (at : ℕ) (acked : Bool)
    (h : WasDelivered s c at acked) where
  open json use {Value}

  enqueue_keeps :
      (c' : Text) (d : ℕ) (topic ct : Text) (v : Value) (t e : ℕ)
      → WasDelivered (enqueue json c' d topic ct v t e s).1 c at acked
  enqueue_keeps c' d topic ct v t e = elim (enqueue-Enqueued json c' d topic ct v t e s) [
    | inl same ↦ record {
      row = h.row;
      found = ap (find_row (has_cmd_id c)) same ∙ h.found;
      stamp = h.stamp;
      answered = h.answered;
    }
    | inr (r, _, _, added) ↦ record {
      row = h.row;
      found =
          ap (find_row (has_cmd_id c)) added
          ∙ find-append_kept (has_cmd_id c) s.cmd_outbox (r ∷ []) h.row h.found;
      stamp = h.stamp;
      answered = h.answered;
    }
  ]

  delivers_keeps : (c' : Text) (now : ℕ) → WasDelivered (mark_delivered c' now s).1 c at acked
  unfolding mark_delivered
  delivers_keeps c' now = record {
    row = h.row;
    found =
        find-update (has_cmd_id c) (λ r. has_cmd_id c' r && undelivered r)
          (λ r. record r { delivered_at = some now; attempts = r.attempts + 1 }) (λ r. refl)
          s.cmd_outbox
        ∙ ground (arith, h.found, h.stamp);
    stamp = h.stamp;
    answered = h.answered;
  }

  acknowledges_keeps :
      (c' result : Text) (detail : Option Text) (now : ℕ)
      → WasDelivered (acknowledge c' result detail now s).1 c at acked
  unfolding acknowledge
  acknowledges_keeps c' result detail now = record {
    row =
        if has_cmd_id c' h.row
        then record h.row {
          ack_at = some now;
          ack_result = some result;
          ack_detail = detail;
          delivered_at = coalesce h.row.delivered_at now;
        }
        else h.row;
    found =
        find-update (has_cmd_id c) (has_cmd_id c')
          (λ r. record r {
            ack_at = some now;
            ack_result = some result;
            ack_detail = detail;
            delivered_at = coalesce r.delivered_at now;
          })
          (λ r. refl) s.cmd_outbox
        ∙ ground (arith, h.found);
    stamp = ground (arith, h.stamp);
    answered = λ a. ground (arith, h.answered a);
  }

  acks_keeps :
      (c' result : Text) (detail : Option Text) (now : ℕ)
      → WasDelivered (record_ack c' result detail now s).1 c at acked
  unfolding record_ack
  acks_keeps c' result detail now = elim (Bool-cases (check_fails c' result s)) [
    | inl bad ↦ rw bad h
    | inr good ↦ rw good (acknowledges_keeps c' result detail now)
  ]

  cancels_keeps : (c' : Text) → WasDelivered (cancel c' s).1 c at acked
  unfolding cancel
  cancels_keeps c' = record {
    row = h.row;
    found =
        find-delete_kept (has_cmd_id c) (λ r. has_cmd_id c' r && undelivered r) s.cmd_outbox h.row
          h.found (ground (arith, h.stamp));
    stamp = h.stamp;
    answered = h.answered;
  }

module _ (json : Json) (c : Text) (at : ℕ) (acked : Bool) where
  open json use {Value}

  step_keeps :
      (s : Database) (call : OutboxCall Value)
      → WasDelivered s c at acked
      → WasDelivered (step json s call) c at acked
  unfolding step
  step_keeps s (enqueues c' d topic ct v t e) h =
      enqueue_keeps json s c at acked h c' d topic ct v t e
  step_keeps s (delivers c' now) h = delivers_keeps json s c at acked h c' now
  step_keeps s (acks c' result detail now) h = acks_keeps json s c at acked h c' result detail now
  step_keeps s (cancels c') h = cancels_keeps json s c at acked h c'

  -- Once a command was delivered, its row outlives every later sequence of calls of `enqueue`,
  -- `mark_delivered`, `record_ack` and `cancel`, with the time of its first delivery; once it was
  -- acknowledged, it stays acknowledged. The deletion of its device is none of these calls.
  pub run_keeps_delivered :
      (s : Database) (cs : List (OutboxCall Value))
      → WasDelivered s c at acked
      → WasDelivered (run json s cs) c at acked
  unfolding run
  run_keeps_delivered s [] h = h
  run_keeps_delivered s (call ∷ cs) h =
      run_keeps_delivered (step json s call) cs (step_keeps s call h)
