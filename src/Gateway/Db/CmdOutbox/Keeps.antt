-- ===== src/Gateway/Db/CmdOutbox/Keeps.antt =====
-- Enqueueing changes no table but the outbox.
use codeless_workspace.Base.{
  ℕ, inl, inr, List, ltb, leb, Bool-cases, Text, length, is_some, find_row, count_rows,
}
use codeless_workspace.Gateway.Db.CmdOutbox.{
  insert_cmd, enqueue, enqueue_bytes, payload_cap, has_cmd_id, unacked, cmd_max_per_device,
}
use codeless_workspace.Gateway.Error.{payload_too_large, payload_not_serialisable, bad_request}
use codeless_workspace.Gateway.Exec.{or_raise, require}
use codeless_workspace.Gateway.Exec.Preserves.{
  Preserves, continue-Preserves, or_raise-Preserves, require-Preserves, settle-Preserves,
}
use codeless_workspace.Gateway.Json.{Json}
use codeless_workspace.Gateway.Schema.{Database, OutboxRow, has_device}

module _ (T : Database → Type 0)
    (rows_free : (s : Database) (rows : List OutboxRow)
      → T s
      → T (record s { cmd_outbox = rows })) where
  insert_cmd-Preserves :
      (c : Text) (d : ℕ) (topic ct bytes : Text) (t e : ℕ)
      → Preserves T (insert_cmd c d topic ct bytes t e)
  unfolding insert_cmd
  insert_cmd-Preserves c d topic ct bytes t e s h =
      elim (Bool-cases (ltb payload_cap (length bytes))) [
        | inl big ↦ rw big h
        | inr small ↦ elim (Bool-cases (is_some (find_row (has_cmd_id c) s.cmd_outbox))) [
          | inl old ↦ rw (small, old) h
          | inr new ↦ elim (Bool-cases (has_device s d)) [
            | inl known ↦ rw (small, new, known) (rows_free s _ h)
            | inr missing ↦ rw (small, new, missing) h
          ]
        ]
      ]

  enqueue_bytes-Preserves :
      (c : Text) (d : ℕ) (topic ct bytes : Text) (t e : ℕ)
      → Preserves T (enqueue_bytes c d topic ct bytes t e)
  unfolding enqueue_bytes
  enqueue_bytes-Preserves c d topic ct bytes t e s h =
      elim (Bool-cases (ltb (count_rows (unacked d) s.cmd_outbox) cmd_max_per_device)) [
        | inr full ↦ rw full h
        | inl room ↦ rw room (
            settle-Preserves T s (insert_cmd c d topic ct bytes t e s) h
              (insert_cmd-Preserves c d topic ct bytes t e s h))
      ]

  module _ (json : Json) where
    open json use {Value, to_vec}

    pub enqueue-Preserves :
        (c : Text) (d : ℕ) (topic ct : Text) (v : Value) (t e : ℕ)
        → Preserves T (enqueue json c d topic ct v t e)
    unfolding enqueue
    enqueue-Preserves c d topic ct v t e s h =
        continue-Preserves T (or_raise (to_vec v) (bad_request payload_not_serialisable) s) _
          (or_raise-Preserves T (to_vec v) (bad_request payload_not_serialisable) s h)
          (λ bytes s h.
            continue-Preserves T
              (require (leb (length bytes) payload_cap) (bad_request payload_too_large) s) _
              (require-Preserves T (leb (length bytes) payload_cap) (bad_request payload_too_large)
                s h)
              (λ _ s h. enqueue_bytes-Preserves c d topic ct bytes t e s h))
