-- ===== src/Gateway/Db/Messages.antt =====
-- hackline/crates/hackline-gateway/src/db/events.rs and logs.rs: two ring buffers of one shape.
pub mod Ring
pub mod Visible
use codeless_workspace.Base.{
  ℕ, zero, suc, ◌+◌, ◌-◌, ◌*◌, ◌/◌, ◌%◌, ◌^◌, ◌≤◌, ◌<◌, min, max, String, ◌≡◌, refl, sym, ap, ◌∙◌,
  ◌≢◌, ◌↔◌, ◌⊎◌, inl, inr, Bool, true, false, not, ◌&&◌, ◌||◌, Option, none, some, List, [], ◌∷◌,
  ◌++◌, map, reverse, arith, ltb, leb, ◌==◌, if◌then◌else◌, Bool-cases, Option-cases, Text, codes,
  ◌=t◌, =t_iff, =t_refl, =t_sound, All, length, true-ne-false, is_some, is_none, unwrap_or, ◌>>=?◌,
  find_row, select, delete_rows, fresh_rowid, drop, take, ℤ, pos, leb_ℤ, ltb_ℤ,
}
use codeless_workspace.Gateway.Error.{
  Result, ok, err, db, foreign_key, check, bad_request, payload_not_serialisable,
}
use codeless_workspace.Gateway.Exec.{Exec, gets, or_raise, modify, pure, transaction, ◌>>=◌, ◌>>◌}
use codeless_workspace.Gateway.Schema.{Database, Device, MessageRow, has_device}
use codeless_workspace.Gateway.Json.{Json}
use codeless_workspace.Gateway.Db.CmdOutbox.{clamp_limit, before_cursor}

abbrev pub events_max_per_device : ℕ
events_max_per_device = 10000

abbrev pub logs_max_per_device : ℕ
logs_max_per_device = 10000

abbrev pub of_device : ℕ → MessageRow → Bool
of_device device_id r = r.device_id == device_id

unfoldable pub has_id : List MessageRow → ℕ → Bool
unfolding find_row
has_id rows id = is_some (find_row (λ (r : MessageRow). r.id == id) rows)

-- DELETE … WHERE device_id = ? AND id IN (SELECT id … ORDER BY id DESC LIMIT -1 OFFSET cap)
unfoldable pub prune : ℕ → ℕ → List MessageRow → List MessageRow
unfolding delete_rows select has_id
prune device_id cap rows =
    let old = drop cap (reverse (select (of_device device_id) rows)) in
    delete_rows (λ r. of_device device_id r && has_id old r.id) rows

unfoldable pub new_message : ℕ → ℕ → Text → ℤ → Option Text → Text → Text → MessageRow
new_message id device_id topic ts level content_type bytes = record {
  id = id;
  device_id = device_id;
  topic = topic;
  ts = ts;
  level = level;
  content_type = content_type;
  payload = bytes;
}

-- INSERT, then `prune`, on one table.
unfoldable pub push :
    ℕ → ℕ → Text → ℤ → Option Text → Text → Text → List MessageRow → List MessageRow
unfolding prune new_message fresh_rowid
push cap device_id topic ts level content_type bytes rows = prune device_id cap (
    rows
    ++ new_message (fresh_rowid (λ (r : MessageRow). r.id) rows) device_id topic ts level
        content_type bytes
      ∷ [])

-- CHECK (level IN …) on `logs`
unfoldable pub is_level : Text → Bool
unfolding ◌=t◌
is_level l =
    l =t codes "trace"
    || l =t codes "debug"
    || l =t codes "info"
    || l =t codes "warn"
    || l =t codes "error"

-- What the constraints of both tables say, as the error of the INSERT.
allowed : Bool → Text → Bool → Result (Unit {0})
allowed level_fits bytes known =
    if not level_fits || ltb 65536 (length bytes)
    then err (db check)
    else if known
    then ok tt
    else err (db foreign_key)

abbrev pub check_row : Bool → Text → ℕ → Exec Database (Unit {0})
unfolding allowed
check_row level_fits bytes device_id s = (allowed level_fits bytes (has_device s device_id), s)

-- What readers of the two tables get.
pub record EventRow (V : Type 0) : Type 0 where
  pub id : ℕ
  pub device_id : ℕ
  pub topic : Text
  pub ts : ℤ
  pub content_type : Text
  pub payload : V

pub record LogRow (V : Type 0) : Type 0 where
  pub id : ℕ
  pub device_id : ℕ
  pub topic : Text
  pub ts : ℤ
  pub level : Text
  pub content_type : Text
  pub payload : V

module _ (json : Json) where
  open json use {Value, null, to_vec, from_slice}

  unfoldable pub row_to_event : MessageRow → EventRow Value
  row_to_event r = record {
    id = r.id;
    device_id = r.device_id;
    topic = r.topic;
    ts = r.ts;
    content_type = r.content_type;
    payload = unwrap_or (from_slice r.payload) null;
  }

  -- The column `level` of `logs` is NOT NULL.
  unfoldable pub row_to_log : MessageRow → LogRow Value
  row_to_log r = record {
    id = r.id;
    device_id = r.device_id;
    topic = r.topic;
    ts = r.ts;
    level = unwrap_or r.level [];
    content_type = r.content_type;
    payload = unwrap_or (from_slice r.payload) null;
  }

  -- events::insert
  unfoldable pub insert_event : ℕ → Text → ℤ → Text → Value → Exec Database ℕ
  unfolding push fresh_rowid allowed
  insert_event device_id topic ts content_type payload = do
    bytes ← or_raise (to_vec payload) (bad_request payload_not_serialisable)
    transaction (do
      check_row true bytes device_id
      id ← gets (λ s. fresh_rowid (λ (r : MessageRow). r.id) s.events)
      modify (λ s. record s {
        events = push events_max_per_device device_id topic ts none content_type bytes s.events;
      })
      pure id)

  -- logs::insert
  unfoldable pub insert_log : ℕ → Text → ℤ → Text → Text → Value → Exec Database ℕ
  unfolding push fresh_rowid is_level allowed
  insert_log device_id topic ts level content_type payload = do
    bytes ← or_raise (to_vec payload) (bad_request payload_not_serialisable)
    transaction (do
      check_row (is_level level) bytes device_id
      id ← gets (λ s. fresh_rowid (λ (r : MessageRow). r.id) s.logs)
      modify (λ s. record s {
        logs = push logs_max_per_device device_id topic ts (some level) content_type bytes s.logs;
      })
      pure id)

-- A filter that the caller may leave out.
abbrev pub holds : {A : Type 0} → (A → Bool) → Option A → Bool
holds p none = true
holds p (some a) = p a

-- the org of the row's device: the join with `devices`
unfoldable pub visible_to : Database → ℕ → MessageRow → Bool
unfolding find_row
visible_to s org_id r =
    is_some (find_row (λ (d : Device). d.id == r.device_id && d.org_id == org_id) s.devices)

-- SQLite's GLOB: the pattern, then the text.
module _ (glob : Text → Text → Bool) where
  wanted :
      Database → ℕ → Option ℕ → Option Text → Option Text → Option ℤ → Option ℤ → MessageRow → Bool
  unfolding visible_to ◌=t◌
  wanted s org_id device_id topic_glob level since_ms cursor r =
      visible_to s org_id r
      && (holds (λ (d : ℕ). r.device_id == d) device_id
          && (holds (λ (t : Text). glob t r.topic) topic_glob
              && (holds (λ (l : Text). unwrap_or r.level [] =t l) level
                  && (holds (λ (t : ℤ). leb_ℤ t r.ts) since_ms && before_cursor cursor r.id))))

  -- … ORDER BY id DESC LIMIT ?
  unfoldable pub page :
      Database
      → ℕ
      → Option ℕ
      → Option Text
      → Option Text
      → Option ℤ
      → Option ℤ
      → ℤ
      → List MessageRow
      → List MessageRow
  unfolding wanted select
  page s org_id device_id topic_glob level since_ms cursor limit rows =
      take (clamp_limit limit)
        (reverse (select (wanted s org_id device_id topic_glob level since_ms cursor) rows))

  module _ (json : Json) where
    open json use {Value}

    -- events::list
    unfoldable pub list_events :
        ℕ → Option ℕ → Option Text → Option ℤ → Option ℤ → ℤ → Exec Database (List (EventRow Value))
    unfolding page row_to_event
    list_events org_id device_id topic_glob since_ms cursor limit = gets λ s.
        map (row_to_event json)
          (page s org_id device_id topic_glob none since_ms cursor limit s.events)

    -- logs::list
    unfoldable pub list_logs :
        ℕ
        → Option ℕ
        → Option Text
        → Option Text
        → Option ℤ
        → Option ℤ
        → ℤ
        → Exec Database (List (LogRow Value))
    unfolding page row_to_log
    list_logs org_id device_id topic_glob level since_ms cursor limit = gets λ s.
        map (row_to_log json)
          (page s org_id device_id topic_glob level since_ms cursor limit s.logs)

-- events::device_id_for_zid
unfoldable pub device_id_for_zid : Text → Exec Database (Option ℕ)
unfolding find_row ◌=t◌
device_id_for_zid zid =
    gets λ s. find_row (λ (d : Device). d.zid =t zid) s.devices >>=? λ d. some d.id
