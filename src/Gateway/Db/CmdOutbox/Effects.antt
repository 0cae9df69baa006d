-- ===== src/Gateway/Db/CmdOutbox/Effects.antt =====
-- What the operations of the outbox do to the row of a command.
use codeless_workspace.Base.{
  ℕ, ◌+◌, ◌≡◌, refl, ap, ◌∙◌, Bool, true, false, ◌&&◌, Option, none, some, arith, if◌then◌else◌,
  Text, All, is_some, is_none, find_row, find_row-none, find_row_sound, find-update, delete_none,
  update_none, ◌>>=?◌, find-update_self, update-update, delete-gone,
}
use codeless_workspace.Gateway.Error.{ok, err}
use codeless_workspace.Gateway.Schema.{Database, OutboxRow}
use codeless_workspace.Gateway.Db.CmdOutbox.{
  has_cmd_id, undelivered, coalesce, mark_delivered, record_ack, cancel, check_fails, acknowledge,
  parse_cmd_result, db, check,
}

abbrev pub row_of : Database → Text → Option OutboxRow
row_of s c = find_row (has_cmd_id c) s.cmd_outbox

-- With one of the four results, recording is the UPDATE.
pub record_ack-acknowledge :
    (c result : Text) (detail : Option Text) (now : ℕ) (s : Database)
    → is_none (parse_cmd_result result) ≡ false
    → record_ack c result detail now s ≡ acknowledge c result detail now s
unfolding record_ack check_fails
record_ack-acknowledge c result detail now s e =
    rw (no_check (is_some (row_of s c)) (is_none (parse_cmd_result result)) e) refl
  where
    no_check : (a b : Bool) → b ≡ false → (a && b) ≡ false
    no_check a b h = ground (arith, h)

-- An acknowledgement with one of the four results is recorded exactly if the command has a row; that
-- row is then delivered and has the result. Without a row nothing changes, and with another result
-- for a row the table's CHECK refuses it.
pub record_ack_lem :
    (c result : Text) (detail : Option Text) (now : ℕ) (s : Database)
    → (is_none (parse_cmd_result result) ≡ false
        → ((record_ack c result detail now s).0 ≡ ok (is_some (row_of s c)))
          × (row_of (record_ack c result detail now s).1 c ≡ (
              row_of s c >>=? λ r. some (record r {
                ack_at = some now;
                ack_result = some result;
                ack_detail = detail;
                delivered_at = coalesce r.delivered_at now;
              }))))
      × (row_of s c ≡ none → (record_ack c result detail now s).1 ≡ s)
      × (is_none (parse_cmd_result result) ≡ true
          → is_some (row_of s c) ≡ true
          → record_ack c result detail now s ≡ (err (db check), s))
unfolding record_ack acknowledge check_fails
record_ack_lem c result detail now s = (
  λ e. rw (record_ack-acknowledge c result detail now s e) (
    refl,
    find-update_self (has_cmd_id c)
        (λ r. record r {
          ack_at = some now;
          ack_result = some result;
          ack_detail = detail;
          delivered_at = coalesce r.delivered_at now;
        })
        (λ r. refl) s.cmd_outbox,
  ),
  λ h.
      rw
        (
          h,
          update_none (has_cmd_id c)
              (λ r. record r {
                ack_at = some now;
                ack_result = some result;
                ack_detail = detail;
                delivered_at = coalesce r.delivered_at now;
              })
              s.cmd_outbox (find_row-none (has_cmd_id c) s.cmd_outbox h),
        )
        refl,
  λ bad there. rw (bad, there) refl,
)

-- A delivery stamps an undelivered row and counts the attempt, leaves any other row as it is, and a
-- second delivery of the command changes nothing.
pub mark_delivered_lem :
    (c : Text) (now later : ℕ) (s : Database)
    → (row_of (mark_delivered c now s).1 c ≡ (
        row_of s c >>=? λ r. some (
          if undelivered r
          then record r { delivered_at = some now; attempts = r.attempts + 1 }
          else r)))
      × ((mark_delivered c later (mark_delivered c now s).1).1 ≡ (mark_delivered c now s).1)
unfolding mark_delivered
mark_delivered_lem c now later s = (
  find-update (has_cmd_id c) (λ r. has_cmd_id c r && undelivered r)
        (λ r. record r { delivered_at = some now; attempts = r.attempts + 1 }) (λ r. refl)
        s.cmd_outbox
      ∙ found_self (row_of s c) refl,
  ap (λ rows. record s { cmd_outbox = rows })
      (update-update (λ r. has_cmd_id c r && undelivered r)
        (λ r. record r { delivered_at = some later; attempts = r.attempts + 1 })
        (λ r. record r { delivered_at = some now; attempts = r.attempts + 1 }) (λ r. ground arith)
        s.cmd_outbox),
)
  where
    found_self :
        (o : Option OutboxRow)
        → row_of s c ≡ o
        → (o >>=? λ r. some (
            if has_cmd_id c r && undelivered r
            then record r { delivered_at = some now; attempts = r.attempts + 1 }
            else r))
          ≡ (o >>=? λ r. some (
              if undelivered r
              then record r { delivered_at = some now; attempts = r.attempts + 1 }
              else r))
    found_self none e = refl
    found_self (some r) e = rw (find_row_sound (has_cmd_id c) s.cmd_outbox r e)

unfoldable pub waits : Text → OutboxRow → Bool
waits c r = has_cmd_id c r && undelivered r

-- A cancel says whether an undelivered row of the command was there. Afterwards there is none; a
-- cancel that says no has changed nothing.
pub cancel_lem :
    (c : Text) (s : Database)
    → ((cancel c s).0 ≡ ok (is_some (find_row (waits c) s.cmd_outbox)))
      × All (λ r. waits c r ≡ false) (cancel c s).1.cmd_outbox
      × ((cancel c s).0 ≡ ok false → (cancel c s).1 ≡ s)
unfolding cancel waits
cancel_lem c s = (
  refl,
  delete-gone (waits c) s.cmd_outbox,
  λ h.
      ap (λ rows. record s { cmd_outbox = rows })
        (delete_none (waits c) s.cmd_outbox (
          find_row-none (waits c) s.cmd_outbox
            (none_of_not_some (find_row (waits c) s.cmd_outbox) h))),
)
  where
    none_of_not_some : (o : Option OutboxRow) → ok (is_some o) ≡ ok false → o ≡ none
    none_of_not_some none h = refl
    none_of_not_some (some r) h = cc
