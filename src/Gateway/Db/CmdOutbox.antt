-- ===== src/Gateway/Db/CmdOutbox.antt =====
-- hackline/crates/hackline-gateway/src/db/cmd_outbox.rs
pub mod Rows
pub mod Enqueue
pub mod Inv
pub mod Runs
pub mod Effects
pub mod Lifecycle
pub mod Pages
pub mod Phase
pub mod Moves
pub mod Acks
pub mod Cancels
pub mod Refines
pub mod Keeps
use codeless_workspace.Proto.Msg.{parse_cmd_result}
use codeless_workspace.Base.{
  ℕ, zero, suc, ◌+◌, ◌-◌, ◌*◌, ◌/◌, ◌%◌, ◌^◌, ◌≤◌, ◌<◌, min, max, String, ◌≡◌, refl, sym, ap, ◌∙◌,
  ◌≢◌, ◌↔◌, ◌⊎◌, inl, inr, Bool, true, false, not, ◌&&◌, ◌||◌, Option, none, some, List, [], ◌∷◌,
  ◌++◌, map, reverse, arith, ltb, leb, ◌==◌, if◌then◌else◌, Bool-cases, Option-cases, Text, codes,
  ◌=t◌, =t_iff, =t_refl, =t_sound, All, length, true-ne-false, is_some, is_none, unwrap_or, select,
  find_row, count_rows, delete_rows, update_rows, fresh_rowid, take, ℤ, pos, leb_ℤ, ltb_ℤ, pos_part,
  ◌>>=?◌,
}
use codeless_workspace.Gateway.Error.{
  Result, ok, err, db, unique, foreign_key, check, bad_request, payload_not_serialisable,
  payload_too_large, outbox_full, unknown_status,
}
use codeless_workspace.Gateway.Exec.{
  Exec, or_raise, require, transaction, modify, gets, pure, ◌>>=◌, ◌>>◌,
}
use codeless_workspace.Gateway.Schema.{Database, OutboxRow, has_device}
use codeless_workspace.Gateway.Json.{Json}

abbrev pub cmd_max_per_device : ℕ
cmd_max_per_device = 1000

abbrev pub cmd_default_ttl_ms : ℕ
cmd_default_ttl_ms = 7 * 24 * 60 * 60 * 1000

abbrev pub payload_cap : ℕ
payload_cap = 65536

-- What a reader of the outbox gets: a row with its payload decoded and its status.
pub record CmdRow (V : Type 0) : Type 0 where
  pub row : OutboxRow
  pub payload : V
  pub status : Text

unfoldable pub derive_status : Option ℕ → Option ℕ → ℕ → ℕ → Text
derive_status delivered_at ack_at expires_at now =
    if is_some ack_at
    then codes "acked"
    else if is_some delivered_at
    then codes "delivered"
    else if leb expires_at now
    then codes "expired"
    else codes "pending"

-- ack_at IS NULL, of one device
unfoldable pub unacked : ℕ → OutboxRow → Bool
unacked device_id r = r.device_id == device_id && is_none r.ack_at

abbrev pub undelivered : OutboxRow → Bool
undelivered r = is_none r.delivered_at

unfoldable pub has_cmd_id : Text → OutboxRow → Bool
unfolding ◌=t◌
has_cmd_id cmd_id r = r.cmd_id =t cmd_id

-- The INSERT, on a table of rows.
unfoldable pub new_row : ℕ → Text → ℕ → Text → Text → Text → ℕ → ℕ → OutboxRow
new_row id cmd_id device_id topic content_type bytes enqueued_at expires_at = record {
  id = id;
  cmd_id = cmd_id;
  device_id = device_id;
  topic = topic;
  content_type = content_type;
  payload = bytes;
  enqueued_at = enqueued_at;
  expires_at = expires_at;
  delivered_at = none;
  ack_at = none;
  ack_result = none;
  ack_detail = none;
  attempts = 0;
  last_error = none;
}

pub insert_cmd : Text → ℕ → Text → Text → Text → ℕ → ℕ → Exec Database ℕ
unfolding new_row has_cmd_id find_row fresh_rowid
insert_cmd cmd_id device_id topic content_type bytes enqueued_at expires_at s =
    if ltb payload_cap (length bytes)
    then (err (db check), s)
    else if is_some (find_row (has_cmd_id cmd_id) s.cmd_outbox)
    then (err (db unique), s)
    else if has_device s device_id
    then (let id = fresh_rowid (λ (r : OutboxRow). r.id) s.cmd_outbox in
        (
          ok id,
          record s {
            cmd_outbox =
                s.cmd_outbox
                ++ (new_row id cmd_id device_id topic content_type bytes enqueued_at expires_at
                    ∷ []);
          },
        ))
    else (err (db foreign_key), s)

-- The body of the transaction in `enqueue`.
pub enqueue_bytes : Text → ℕ → Text → Text → Text → ℕ → ℕ → Exec Database ℕ
unfolding count_rows unacked insert_cmd
enqueue_bytes cmd_id device_id topic content_type bytes enqueued_at expires_at = transaction (do
  count ← gets (λ s. count_rows (unacked device_id) s.cmd_outbox)
  require (ltb count cmd_max_per_device) (bad_request outbox_full)
  insert_cmd cmd_id device_id topic content_type bytes enqueued_at expires_at)

unfoldable pub mark_delivered : Text → ℕ → Exec Database (Unit {0})
unfolding update_rows has_cmd_id
mark_delivered cmd_id now_ms = modify λ s. record s {
  cmd_outbox =
      update_rows (λ r. has_cmd_id cmd_id r && undelivered r)
        (λ r. record r { delivered_at = some now_ms; attempts = r.attempts + 1 }) s.cmd_outbox;
}

-- COALESCE
abbrev pub coalesce : Option ℕ → ℕ → Option ℕ
coalesce none d = some d
coalesce (some a) d = some a

-- The UPDATE of `record_ack`, where the result is one of the CHECK.
unfoldable pub acknowledge : Text → Text → Option Text → ℕ → Exec Database Bool
unfolding update_rows has_cmd_id find_row
acknowledge cmd_id result detail now_ms s = (
  ok (is_some (find_row (has_cmd_id cmd_id) s.cmd_outbox)),
  record s {
    cmd_outbox =
        update_rows (has_cmd_id cmd_id)
          (λ r. record r {
            ack_at = some now_ms;
            ack_result = some result;
            ack_detail = detail;
            delivered_at = coalesce r.delivered_at now_ms;
          })
          s.cmd_outbox;
  },
)

-- CHECK (ack_result IN …): a row is there, and the result is none of the four.
unfoldable pub check_fails : Text → Text → Database → Bool
unfolding find_row has_cmd_id parse_cmd_result
check_fails cmd_id result s =
    is_some (find_row (has_cmd_id cmd_id) s.cmd_outbox) && is_none (parse_cmd_result result)

unfoldable pub record_ack : Text → Text → Option Text → ℕ → Exec Database Bool
unfolding acknowledge check_fails
record_ack cmd_id result detail now_ms s =
    if check_fails cmd_id result s
    then (err (db check), s)
    else acknowledge cmd_id result detail now_ms s

unfoldable pub cancel : Text → Exec Database Bool
unfolding delete_rows has_cmd_id find_row
cancel cmd_id s = (
  ok (is_some (find_row (λ r. has_cmd_id cmd_id r && undelivered r) s.cmd_outbox)),
  record s { cmd_outbox = delete_rows (λ r. has_cmd_id cmd_id r && undelivered r) s.cmd_outbox },
)

bump : ℕ → List (ℕ × ℕ) → List (ℕ × ℕ)
bump d [] = (d, 1) ∷ []
bump d ((e, n) ∷ m) = let rest = bump d m in if e == d then (e, n + 1) ∷ m else (e, n) ∷ rest

depths : List OutboxRow → List (ℕ × ℕ)
unfolding bump
depths [] = []
depths (r ∷ rows) =
    let rest = depths rows in if is_none r.ack_at then bump r.device_id rest else rest

-- SELECT device_id, COUNT(*) … GROUP BY device_id. The order of the map's keys is not modelled.
unfoldable pub pending_depth_by_device : Exec Database (List (ℕ × ℕ))
unfolding depths
pending_depth_by_device = gets λ s. depths s.cmd_outbox

-- `limit.clamp(1, 1000)`
abbrev pub clamp_limit : ℤ → ℕ
clamp_limit limit =
    if leb_ℤ limit (pos 1) then 1 else if leb_ℤ (pos 1000) limit then 1000 else pos_part limit

-- The test that a status filter adds, `none` for an unknown status.
unfoldable pub status_test : Option Text → Option (OutboxRow → Bool)
unfolding ◌=t◌
status_test none = some (λ _. true)
status_test (some s) =
    if s =t codes "pending"
    then some (λ r. is_none r.delivered_at)
    else if s =t codes "delivered"
    then some (λ r. is_some r.delivered_at && is_none r.ack_at)
    else if s =t codes "acked"
    then some (λ r. is_some r.ack_at)
    else none

-- AND id < ?
abbrev pub before_cursor : Option ℤ → ℕ → Bool
before_cursor none id = true
before_cursor (some c) id = ltb_ℤ (pos id) c

-- … ORDER BY id DESC LIMIT ?
unfoldable pub page_rows : ℕ → (OutboxRow → Bool) → Option ℤ → ℕ → List OutboxRow → List OutboxRow
unfolding select
page_rows device_id test cursor limit rows =
    take limit
      (reverse (select (λ r. r.device_id == device_id && test r && before_cursor cursor r.id) rows))

module _ (json : Json) where
  open json use {Value, null, to_vec, from_slice}

  unfoldable pub row_to_cmd : ℕ → OutboxRow → CmdRow Value
  unfolding derive_status
  row_to_cmd now r = record {
    row = r;
    payload = unwrap_or (from_slice r.payload) null;
    status = derive_status r.delivered_at r.ack_at r.expires_at now;
  }

  unfoldable pub enqueue : Text → ℕ → Text → Text → Value → ℕ → ℕ → Exec Database ℕ
  unfolding enqueue_bytes
  enqueue cmd_id device_id topic content_type payload enqueued_at expires_at = do
    bytes ← or_raise (to_vec payload) (bad_request payload_not_serialisable)
    require (leb (length bytes) payload_cap) (bad_request payload_too_large)
    enqueue_bytes cmd_id device_id topic content_type bytes enqueued_at expires_at

  unfoldable pub get_by_cmd_id : ℕ → Text → Exec Database (Option (CmdRow Value))
  unfolding find_row has_cmd_id row_to_cmd
  get_by_cmd_id now cmd_id =
      gets λ s. find_row (has_cmd_id cmd_id) s.cmd_outbox >>=? λ r. some (row_to_cmd now r)

  unfoldable pub list_by_device :
      ℕ → ℕ → Option Text → Option ℤ → ℤ → Exec Database (List (CmdRow Value))
  unfolding status_test page_rows row_to_cmd
  list_by_device now device_id status_filter cursor limit = do
    test ← or_raise (status_test status_filter) (bad_request unknown_status)
    gets
        λ s. map (row_to_cmd now) (page_rows device_id test cursor (clamp_limit limit) s.cmd_outbox)

  unfoldable pub list_pending : ℕ → Exec Database (List (CmdRow Value))
  unfolding select row_to_cmd
  list_pending now_ms = gets λ s.
      map (row_to_cmd now_ms) (select (λ r. undelivered r && ltb now_ms r.expires_at) s.cmd_outbox)
