-- ===== src/Gateway/Db/CmdOutbox/Inv.antt =====
-- The invariant of the outbox table.
use codeless_workspace.Base.{
  ℕ, ◌+◌, ◌≤◌, ◌≡◌, refl, ◌≢◌, inl, inr, true, false, ◌&&◌, Option, some, List, [], ◌∷◌, ◌++◌,
  arith, Bool-cases, Text, =t_refl, All, length, true-ne-false, is_some, Ascending, Distinct,
  count_rows, find_row-none, All-append, Ascending-append, Ascending-update, Ascending-delete,
  Distinct-append, Distinct-update, Distinct-delete, fresh_rowid-above, count-append,
  count-update-le, count-delete-le, All-update, All-delete, All-map,
}
use codeless_workspace.Gateway.Schema.{Database, OutboxRow}
use codeless_workspace.Gateway.Json.{Json}
use codeless_workspace.Gateway.Db.CmdOutbox.{
  unacked, undelivered, has_cmd_id, coalesce, cmd_max_per_device, payload_cap, enqueue,
  mark_delivered, record_ack, cancel, check_fails, acknowledge,
}
use codeless_workspace.Gateway.Db.CmdOutbox.Rows.{Added, enqueue-Enqueued}

-- What the columns of a row say together: an acknowledged row is delivered and has a result, a row
-- that is not delivered was never tried, no row was tried twice, and a payload is within the cap.
pub record IsSound (r : OutboxRow) : Type 0 where
  pub acked_delivered : is_some r.ack_at ≡ true → is_some r.delivered_at ≡ true
  pub acked_result : is_some r.ack_at ≡ is_some r.ack_result
  pub waiting_untried : is_some r.delivered_at ≡ false → r.attempts ≡ 0
  pub tried_once : r.attempts ≤ 1
  pub fits : length r.payload ≤ payload_cap

abbrev pub row_id : OutboxRow → ℕ
row_id r = r.id

abbrev pub row_cmd_id : OutboxRow → Text
row_cmd_id r = r.cmd_id

-- Rowids ascend, no command id stands twice, no device has more than the cap of unacknowledged
-- rows, and every row is sound.
pub record IsOutbox (rows : List OutboxRow) : Type 0 where
  pub ascending : Ascending row_id rows
  pub distinct : Distinct row_cmd_id rows
  pub capped : (d : ℕ) → count_rows (unacked d) rows ≤ cmd_max_per_device
  pub sound : All IsSound rows

differs : (c : Text) (r : OutboxRow) → has_cmd_id c r ≡ false → r.cmd_id ≢ c
unfolding has_cmd_id
differs c r h e = true-ne-false (rw e (=t_refl c)) h

Added-count :
    (d : ℕ) (r : OutboxRow) (rows : List OutboxRow)
    → Added rows r
    → ((d : ℕ) → count_rows (unacked d) rows ≤ cmd_max_per_device)
    → count_rows (unacked d) (rows ++ r ∷ []) ≤ cmd_max_per_device
unfolding count_rows unacked
Added-count d r rows a h = rw (count-append (unacked d) rows (r ∷ [])) (ground (arith, h d, a.room))

Added-IsSound : {rows : List OutboxRow} {r : OutboxRow} → Added rows r → IsSound r
Added-IsSound {rows} {r} a = record {
  acked_delivered = λ h. ground (arith, a.unacked_yet);
  acked_result = rw (a.unacked_yet, a.result_yet);
  waiting_untried = λ _. a.untried;
  tried_once = omega arith;
  fits = a.fits;
}

Added-IsOutbox :
    (rows : List OutboxRow) (r : OutboxRow)
    → Added rows r
    → IsOutbox rows
    → IsOutbox (rows ++ r ∷ [])
Added-IsOutbox rows r a v = record {
  ascending =
      Ascending-append row_id rows r (rw a.fresh (fresh_rowid-above row_id rows)) v.ascending;
  distinct =
      Distinct-append row_cmd_id rows r
        (All-map (λ x. has_cmd_id r.cmd_id x ≡ false) (λ x. x.cmd_id ≢ r.cmd_id) (differs r.cmd_id)
          rows (find_row-none (has_cmd_id r.cmd_id) rows a.new_id))
        v.distinct;
  capped = λ d. Added-count d r rows a v.capped;
  sound = All-append IsSound rows (r ∷ []) v.sound (Added-IsSound a, tt);
}

pub enqueue-IsOutbox :
    (json : Json) (cmd_id : Text) (d : ℕ) (topic ct : Text) (v : json.Value) (t e : ℕ)
    (s : Database)
    → IsOutbox s.cmd_outbox
    → IsOutbox (enqueue json cmd_id d topic ct v t e s).1.cmd_outbox
enqueue-IsOutbox json cmd_id d topic ct v t e s h =
    elim (enqueue-Enqueued json cmd_id d topic ct v t e s) [
      | inl same ↦ rw same h
      | inr (r, a, _, added) ↦ rw added (Added-IsOutbox s.cmd_outbox r a h)
    ]

delivered-IsSound :
    (now : ℕ) (r : OutboxRow)
    → undelivered r ≡ true
    → IsSound r
    → IsSound (record r { delivered_at = some now; attempts = r.attempts + 1 })
delivered-IsSound now r h v = record {
  acked_delivered = λ _. refl;
  acked_result = v.acked_result;
  waiting_untried = λ e. cc;
  tried_once = omega (arith, v.waiting_untried (ground arith));
  fits = v.fits;
}

pub mark_delivered-IsOutbox :
    (c : Text) (now : ℕ) (s : Database)
    → IsOutbox s.cmd_outbox
    → IsOutbox (mark_delivered c now s).1.cmd_outbox
unfolding mark_delivered
mark_delivered-IsOutbox c now s v = record {
  ascending = Ascending-update row_id _ _ (λ r. refl) s.cmd_outbox v.ascending;
  distinct = Distinct-update row_cmd_id _ _ (λ r. refl) s.cmd_outbox v.distinct;
  capped = λ d. omega (
    arith,
    count-update-le (λ r. has_cmd_id c r && undelivered r)
        (λ r. record r { delivered_at = some now; attempts = r.attempts + 1 }) (unacked d)
        (λ r. unfold unacked in λ h. h) s.cmd_outbox,
    v.capped d,
  );
  sound =
      All-update IsSound _ _ (λ r h k. delivered-IsSound now r (ground arith) k) s.cmd_outbox
        v.sound;
}

acked-IsSound :
    (now : ℕ) (result : Text) (detail : Option Text) (r : OutboxRow)
    → IsSound r
    → IsSound (record r {
      ack_at = some now;
      ack_result = some result;
      ack_detail = detail;
      delivered_at = coalesce r.delivered_at now;
    })
acked-IsSound now result detail r v = record {
  acked_delivered = λ _. ground arith;
  acked_result = refl;
  waiting_untried = λ e. ground arith;
  tried_once = v.tried_once;
  fits = v.fits;
}

acked_lowers :
    (d now : ℕ) (result : Text) (detail : Option Text) (r : OutboxRow)
    → unacked d (record r {
      ack_at = some now;
      ack_result = some result;
      ack_detail = detail;
      delivered_at = coalesce r.delivered_at now;
    })
      ≡ true
    → unacked d r ≡ true
unfolding unacked
acked_lowers d now result detail r h = ground arith

acknowledge-IsOutbox :
    (c result : Text) (detail : Option Text) (now : ℕ) (s : Database)
    → IsOutbox s.cmd_outbox
    → IsOutbox (acknowledge c result detail now s).1.cmd_outbox
unfolding acknowledge
acknowledge-IsOutbox c result detail now s v = record {
  ascending = Ascending-update row_id _ _ (λ r. refl) s.cmd_outbox v.ascending;
  distinct = Distinct-update row_cmd_id _ _ (λ r. refl) s.cmd_outbox v.distinct;
  capped = λ d. omega (
    arith,
    count-update-le (has_cmd_id c)
        (λ r. record r {
          ack_at = some now;
          ack_result = some result;
          ack_detail = detail;
          delivered_at = coalesce r.delivered_at now;
        })
        (unacked d) (acked_lowers d now result detail) s.cmd_outbox,
    v.capped d,
  );
  sound =
      All-update IsSound _ _ (λ r h k. acked-IsSound now result detail r k) s.cmd_outbox v.sound;
}

pub record_ack-IsOutbox :
    (c result : Text) (detail : Option Text) (now : ℕ) (s : Database)
    → IsOutbox s.cmd_outbox
    → IsOutbox (record_ack c result detail now s).1.cmd_outbox
unfolding record_ack
record_ack-IsOutbox c result detail now s v = elim (Bool-cases (check_fails c result s)) [
  | inl bad ↦ rw bad v
  | inr good ↦ rw good (acknowledge-IsOutbox c result detail now s v)
]

pub cancel-IsOutbox :
    (c : Text) (s : Database) → IsOutbox s.cmd_outbox → IsOutbox (cancel c s).1.cmd_outbox
unfolding cancel
cancel-IsOutbox c s v = record {
  ascending = Ascending-delete row_id _ s.cmd_outbox v.ascending;
  distinct = Distinct-delete row_cmd_id _ s.cmd_outbox v.distinct;
  capped = λ d. omega (
    arith,
    count-delete-le (λ r. has_cmd_id c r && undelivered r) (unacked d) s.cmd_outbox,
    v.capped d,
  );
  sound = All-delete IsSound _ s.cmd_outbox v.sound;
}
