-- ===== src/Gateway/Db/CmdOutbox/Enqueue.antt =====
-- When `enqueue` takes a command, and what it answers when it does not.
use codeless_workspace.Base.{
  ℕ, ◌≤◌, ◌<◌, ◌≡◌, refl, true, false, none, some, [], ◌∷◌, ◌++◌, arith, ltb, leb, Text, length,
  is_some, count_rows, find_row, fresh_rowid,
}
use codeless_workspace.Gateway.Json.{Json}
use codeless_workspace.Gateway.Error.{
  ok, err, bad_request, db, unique, foreign_key, outbox_full, payload_too_large,
}
use codeless_workspace.Gateway.Schema.{Database, OutboxRow, has_device}
use codeless_workspace.Gateway.Db.CmdOutbox.{
  cmd_max_per_device, payload_cap, unacked, has_cmd_id, new_row, enqueue, enqueue_bytes, insert_cmd,
}

-- the row that an enqueue makes
abbrev pub queued : Database → Text → ℕ → Text → Text → Text → ℕ → ℕ → OutboxRow
queued s cmd_id d topic ct bytes t e =
    new_row (fresh_rowid (λ (r : OutboxRow). r.id) s.cmd_outbox) cmd_id d topic ct bytes t e

module _ (json : Json) (cmd_id : Text) (d : ℕ) (topic ct : Text) (v : json.Value) (bytes : Text)
    (t e : ℕ) (s : Database) (encoded : json.to_vec v ≡ some bytes) where
  -- A payload that encodes to bytes within the cap is enqueued as one new row at the end of the
  -- table, if its device exists, has room for one more unacknowledged command, and the id is new.
  -- Bytes over the cap, a device without room, an id that is taken, and a device that is not there
  -- are refused each with its own error, in this order, and change nothing. A device without room is
  -- refused also when its oldest pending row has expired: expiry has no part in any of the cases.
  pub enqueue_lem :
      (length bytes ≤ payload_cap
        → count_rows (unacked d) s.cmd_outbox < cmd_max_per_device
        → find_row (has_cmd_id cmd_id) s.cmd_outbox ≡ none
        → has_device s d ≡ true
        → enqueue json cmd_id d topic ct v t e s ≡ (
          ok (queued s cmd_id d topic ct bytes t e).id,
          record s { cmd_outbox = s.cmd_outbox ++ queued s cmd_id d topic ct bytes t e ∷ [] },
        ))
      × (payload_cap < length bytes
          → enqueue json cmd_id d topic ct v t e s ≡ (err (bad_request payload_too_large), s))
      × (length bytes ≤ payload_cap
          → cmd_max_per_device ≤ count_rows (unacked d) s.cmd_outbox
          → enqueue json cmd_id d topic ct v t e s ≡ (err (bad_request outbox_full), s))
      × (length bytes ≤ payload_cap
          → count_rows (unacked d) s.cmd_outbox < cmd_max_per_device
          → is_some (find_row (has_cmd_id cmd_id) s.cmd_outbox) ≡ true
          → enqueue json cmd_id d topic ct v t e s ≡ (err (db unique), s))
      × (length bytes ≤ payload_cap
          → count_rows (unacked d) s.cmd_outbox < cmd_max_per_device
          → find_row (has_cmd_id cmd_id) s.cmd_outbox ≡ none
          → has_device s d ≡ false
          → enqueue json cmd_id d topic ct v t e s ≡ (err (db foreign_key), s))
  unfolding enqueue enqueue_bytes insert_cmd new_row
  enqueue_lem = (
    λ fits room new known. rw (encoded, small fits, free room, within fits, new, known) refl,
    λ big. rw (encoded, over big) refl,
    λ fits full. rw (encoded, small fits, taken full) refl,
    λ fits room old. rw (encoded, small fits, free room, within fits, old) refl,
    λ fits room new missing. rw (encoded, small fits, free room, within fits, new, missing) refl,
  )
    where
      small : length bytes ≤ payload_cap → leb (length bytes) payload_cap ≡ true
      small h = ground (arith, h)

      over : payload_cap < length bytes → leb (length bytes) payload_cap ≡ false
      over h = ground (arith, h)

      within : length bytes ≤ payload_cap → ltb payload_cap (length bytes) ≡ false
      within h = ground (arith, h)

      free :
          count_rows (unacked d) s.cmd_outbox < cmd_max_per_device
          → ltb (count_rows (unacked d) s.cmd_outbox) cmd_max_per_device ≡ true
      free h = ground (arith, h)

      taken :
          cmd_max_per_device ≤ count_rows (unacked d) s.cmd_outbox
          → ltb (count_rows (unacked d) s.cmd_outbox) cmd_max_per_device ≡ false
      taken h = ground (arith, h)
