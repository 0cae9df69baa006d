-- ===== src/Gateway/Api/History.antt =====
-- hackline/crates/hackline-gateway/src/api/events/list.rs and logs/list.rs
use codeless_workspace.Base.{
  ℕ, Bool, Option, none, some, List, [], ◌∷◌, if◌then◌else◌, Text, length, ℤ, leb_ℤ, pos,
}
use codeless_workspace.Gateway.Db.Messages.{EventRow, LogRow, list_logs, list_events}
use codeless_workspace.Gateway.Exec.{Exec, ◌>>=◌, pure}
use codeless_workspace.Gateway.Json.{Json}
use codeless_workspace.Gateway.Schema.{User, Database}

pub record HistoryQuery : Type 0 where
  pub device : Option ℕ
  pub topic : Option Text
  pub level : Option Text
  pub since : Option ℤ
  pub cursor : Option ℤ
  pub limit : ℤ

-- The field `limit` where the query leaves it out.
abbrev pub default_limit : ℤ
default_limit = pos 100

pub record EventsPage (V : Type 0) : Type 0 where
  pub items : List (EventRow V)
  pub next_cursor : Option ℕ

pub record LogsPage (V : Type 0) : Type 0 where
  pub items : List (LogRow V)
  pub next_cursor : Option ℕ

-- `items.last().map(|r| r.id)`
unfoldable pub last_key : {A : Type 0} → (A → ℕ) → List A → Option ℕ
last_key key [] = none
last_key key (r ∷ []) = some (key r)
last_key key (r ∷ q ∷ rows) = last_key key (q ∷ rows)

unfoldable pub cursor_after : {A : Type 0} → (A → ℕ) → ℤ → List A → Option ℕ
unfolding last_key
cursor_after key limit items = if leb_ℤ limit (pos (length items)) then last_key key items else none

module _ (glob : Text → Text → Bool) (json : Json) where
  open json use {Value}

  -- events::list::handler; the query has no level
  unfoldable pub events_page : User → HistoryQuery → Exec Database (EventsPage Value)
  unfolding list_events cursor_after
  events_page caller q = do
    items ← list_events glob json caller.org_id q.device q.topic q.since q.cursor q.limit
    pure (record {
      items = items;
      next_cursor = cursor_after (λ (r : EventRow Value). r.id) q.limit items;
    })

  -- logs::list::handler
  unfoldable pub logs_page : User → HistoryQuery → Exec Database (LogsPage Value)
  unfolding list_logs cursor_after
  logs_page caller q = do
    items ← list_logs glob json caller.org_id q.device q.topic q.level q.since q.cursor q.limit
    pure (record {
      items = items;
      next_cursor = cursor_after (λ (r : LogRow Value). r.id) q.limit items;
    })
