-- ===== src/Gateway/Api/Cmd.antt =====
-- hackline/crates/hackline-gateway/src/api/cmd: send.rs, cancel.rs and list.rs.
pub mod Gates
pub mod Listing
use codeless_workspace.Base.{
  ℕ, zero, suc, ◌+◌, ◌-◌, ◌*◌, ◌/◌, ◌%◌, ◌^◌, ◌≤◌, ◌<◌, min, max, String, ◌≡◌, refl, sym, ap, ◌∙◌,
  ◌≢◌, ◌↔◌, ◌⊎◌, inl, inr, Bool, true, false, not, ◌&&◌, ◌||◌, Option, none, some, List, [], ◌∷◌,
  ◌++◌, map, reverse, arith, ltb, leb, ◌==◌, if◌then◌else◌, Bool-cases, Option-cases, Text, codes,
  ◌=t◌, =t_iff, =t_refl, =t_sound, All, length, true-ne-false, is_some, is_none, unwrap_or, ◌>>=?◌,
  ℤ, pos, leb_ℤ, pos_part,
}
use codeless_workspace.Proto.Uuid.{Uuids}
use codeless_workspace.Gateway.Json.{Json}
use codeless_workspace.Gateway.Error.{bad_request, topic_empty, not_found}
use codeless_workspace.Gateway.Exec.{
  Exec, lift, raise, or_raise, require, modify, pure, attempt, ◌>>=◌, ◌>>◌,
}
use codeless_workspace.Gateway.Schema.{Database, User}
use codeless_workspace.Gateway.State.{AppState, on_db, notify}
use codeless_workspace.Gateway.Api.Detail.{Details, cmd_sent, cmd_cancelled}
use codeless_workspace.Gateway.Auth.Scope.{check_device}
use codeless_workspace.Gateway.Db.CmdOutbox.{
  CmdRow, cmd_default_ttl_ms, enqueue, get_by_cmd_id, list_by_device, cancel,
}
use codeless_workspace.Gateway.Db.Devices
use codeless_workspace.Gateway.Db.Audit
use codeless_workspace.Proto.Msg.{content_type_json}

pub record SendCmd (V : Type 0) : Type 0 where
  pub payload : V
  pub expires_in_ms : Option ℤ
  pub content_type : Option Text

pub record CmdPage (V : Type 0) : Type 0 where
  pub items : List (CmdRow V)
  pub next_cursor : Option ℕ

-- `.unwrap_or(CMD_DEFAULT_TTL_MS).max(1)`
unfoldable pub ttl_of : Option ℤ → ℕ
ttl_of expires_in_ms = max 1 (pos_part (unwrap_or expires_in_ms (pos cmd_default_ttl_ms)))

-- `now.saturating_add(ttl)`, of two i64
unfoldable pub saturating_add : ℕ → ℕ → ℕ
saturating_add now ttl = min (now + ttl) (2 ^ 63 - 1)

unfoldable pub is_empty : Text → Bool
is_empty [] = true
is_empty (c ∷ s) = false

unfoldable pub last_id : {V : Type 0} → List (CmdRow V) → Option ℕ
last_id [] = none
last_id (r ∷ []) = some r.row.id
last_id (r ∷ q ∷ rows) = last_id (q ∷ rows)

-- `if items.len() as i64 >= limit { items.last().map(…) } else { None }`
unfoldable pub next_cursor_of : {V : Type 0} → ℤ → List (CmdRow V) → Option ℕ
unfolding last_id
next_cursor_of limit items = if leb_ℤ limit (pos (length items)) then last_id items else none

module _ (json : Json) (details : Details) where
  open json use {Value}

  -- cmd::send::handler, with the fresh id, the clock in ms and in seconds.
  unfoldable pub send : User → ℕ → Text → SendCmd Value → Text → ℕ → ℕ → Exec AppState Text
  unfolding check_device Devices.get_in_org is_empty ttl_of saturating_add enqueue Audit.insert
      content_type_json
  send user device_id topic body cmd_id now epoch = do
    lift (check_device json user device_id)
    on_db (Devices.get_in_org user.org_id device_id)
    require (not (is_empty topic)) (bad_request topic_empty)
    on_db (
        enqueue json cmd_id device_id topic (unwrap_or body.content_type content_type_json)
          body.payload now (saturating_add now (ttl_of body.expires_in_ms)))
    attempt (
        on_db (
          Audit.insert (some user.id) (some device_id) none (codes "cmd.send")
            (some (details.render (cmd_sent cmd_id topic))) epoch))
    modify notify
    pure cmd_id

  -- The answer of `cancel`, and the entry that it leaves.
  unfoldable pub cancelled : User → ℕ → Text → Bool → ℕ → Exec AppState (Unit {0})
  unfolding Audit.insert
  cancelled user device_id cmd_id false epoch = raise not_found
  cancelled user device_id cmd_id true epoch = attempt (
      on_db (
        Audit.insert (some user.id) (some device_id) none (codes "cmd.cancel")
          (some (details.render (cmd_cancelled cmd_id))) epoch))

  -- cmd::cancel::handler
  unfoldable pub cancel_handler : User → Text → ℕ → ℕ → Exec AppState (Unit {0})
  unfolding get_by_cmd_id check_device Devices.get_in_org cancel cancelled
  cancel_handler user cmd_id now epoch = do
    found ← on_db (get_by_cmd_id json now cmd_id)
    r ← or_raise found not_found
    lift (check_device json user r.row.device_id)
    on_db (Devices.get_in_org user.org_id r.row.device_id)
    deleted ← on_db (cancel cmd_id)
    cancelled user r.row.device_id cmd_id deleted epoch

  -- cmd::list::handler
  unfoldable pub list_handler :
      User → ℕ → Option Text → Option ℤ → ℤ → ℕ → Exec AppState (CmdPage Value)
  unfolding check_device Devices.get_in_org list_by_device next_cursor_of
  list_handler user device_id status cursor limit now = do
    lift (check_device json user device_id)
    on_db (Devices.get_in_org user.org_id device_id)
    items ← on_db (list_by_device json now device_id status cursor limit)
    pure (record { items = items; next_cursor = next_cursor_of limit items })
