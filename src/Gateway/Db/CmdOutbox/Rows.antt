-- ===== src/Gateway/Db/CmdOutbox/Rows.antt =====
-- What `enqueue` of db/cmd_outbox.rs does to the table.
use codeless_workspace.Base.{
  ℕ, ◌≤◌, ◌<◌, ◌≡◌, refl, ◌⊎◌, inl, inr, false, Option, none, some, List, [], ◌∷◌, ◌++◌, arith, ltb,
  leb, Bool-cases, Option-cases, Text, length, is_some, count_rows, find_row, fresh_rowid,
}
use codeless_workspace.Gateway.Error.{ok, err}
use codeless_workspace.Gateway.Exec.{settle}
use codeless_workspace.Gateway.Schema.{Database, OutboxRow, has_device}
use codeless_workspace.Gateway.Json.{Json}
use codeless_workspace.Gateway.Db.CmdOutbox.{
  unacked, has_cmd_id, cmd_max_per_device, payload_cap, new_row, insert_cmd, enqueue_bytes, enqueue,
  Result,
}

-- The row that an enqueue adds to the rows, and why it may.
pub record Added (rows : List OutboxRow) (r : OutboxRow) : Type 0 where
  pub fresh : r.id ≡ fresh_rowid (λ (x : OutboxRow). x.id) rows
  pub room : count_rows (unacked r.device_id) rows < cmd_max_per_device
  pub new_id : find_row (has_cmd_id r.cmd_id) rows ≡ none
  pub fits : length r.payload ≤ payload_cap
  pub undelivered_yet : r.delivered_at ≡ none
  pub unacked_yet : r.ack_at ≡ none
  pub result_yet : r.ack_result ≡ none
  pub untried : r.attempts ≡ 0

-- Nothing happens to the table, or a row is added.
abbrev pub Enqueued : Text → Database → Database → Type 0
Enqueued cmd_id s s' =
    (s'.cmd_outbox ≡ s.cmd_outbox)
    ⊎ ((r : OutboxRow) × Added s.cmd_outbox r
        × (r.cmd_id ≡ cmd_id)
        × (s'.cmd_outbox ≡ s.cmd_outbox ++ r ∷ []))

none_of_not : {A : Type 0} (o : Option A) → is_some o ≡ false → o ≡ none
none_of_not none h = refl
none_of_not (some a) h = cc

insert-Enqueued :
    (cmd_id : Text) (d : ℕ) (topic ct bytes : Text) (t e : ℕ) (s : Database)
    → count_rows (unacked d) s.cmd_outbox < cmd_max_per_device
    → Enqueued cmd_id s (insert_cmd cmd_id d topic ct bytes t e s).1
unfolding insert_cmd
insert-Enqueued cmd_id d topic ct bytes t e s room =
    elim (Bool-cases (ltb payload_cap (length bytes))) [
      | inl big ↦ inl (rw big)
      | inr small ↦ elim (Bool-cases (is_some (find_row (has_cmd_id cmd_id) s.cmd_outbox))) [
        | inl old ↦ inl (rw (small, old))
        | inr new ↦ elim (Bool-cases (has_device s d)) [
          | inr missing ↦ inl (rw (small, new, missing))
          | inl known ↦ inr (
            new_row (fresh_rowid (λ (x : OutboxRow). x.id) s.cmd_outbox) cmd_id d topic ct bytes t
                e,
            record {
              fresh = refl;
              room = room;
              new_id = none_of_not _ new;
              fits = ground arith;
              undelivered_yet = refl;
              unacked_yet = refl;
              result_yet = refl;
              untried = refl;
            },
            refl,
            rw (small, new, known),
          )
        ]
      ]
    ]

settle-Enqueued :
    (cmd_id : Text) (s : Database) (r : Result ℕ × Database)
    → Enqueued cmd_id s r.1
    → Enqueued cmd_id s (settle s r).1
settle-Enqueued cmd_id s (ok id, s') h = h
settle-Enqueued cmd_id s (err e, s') h = inl refl

enqueue_bytes-Enqueued :
    (cmd_id : Text) (d : ℕ) (topic ct bytes : Text) (t e : ℕ) (s : Database)
    → Enqueued cmd_id s (enqueue_bytes cmd_id d topic ct bytes t e s).1
unfolding enqueue_bytes
enqueue_bytes-Enqueued cmd_id d topic ct bytes t e s =
    elim (Bool-cases (ltb (count_rows (unacked d) s.cmd_outbox) cmd_max_per_device)) [
      | inr full ↦ inl (rw full)
      | inl room ↦ rw room (
          settle-Enqueued cmd_id s (insert_cmd cmd_id d topic ct bytes t e s)
            (insert-Enqueued cmd_id d topic ct bytes t e s (ground arith)))
    ]

module _ (json : Json) where
  open json use {Value, to_vec}

  pub enqueue-Enqueued :
      (cmd_id : Text) (d : ℕ) (topic ct : Text) (v : Value) (t e : ℕ) (s : Database)
      → Enqueued cmd_id s (enqueue json cmd_id d topic ct v t e s).1
  unfolding enqueue
  enqueue-Enqueued cmd_id d topic ct v t e s = elim (Option-cases (to_vec v)) [
    | inl bad ↦ inl (rw bad)
    | inr (bytes, good) ↦ elim (Bool-cases (leb (length bytes) payload_cap)) [
      | inr big ↦ inl (rw (good, big))
      | inl fits ↦ rw (good, fits) (enqueue_bytes-Enqueued cmd_id d topic ct bytes t e s)
    ]
  ]
