-- ===== src/Gateway/Api/Streams.antt =====
-- The filters of hackline/crates/hackline-gateway/src/api/events/stream.rs and logs/stream.rs.
pub mod Isolation
use codeless_workspace.Base.{
  ℕ, zero, suc, ◌+◌, ◌-◌, ◌*◌, ◌/◌, ◌%◌, ◌^◌, ◌≤◌, ◌<◌, min, max, String, ◌≡◌, refl, sym, ap, ◌∙◌,
  ◌≢◌, ◌↔◌, ◌⊎◌, inl, inr, Bool, true, false, not, ◌&&◌, ◌||◌, Option, none, some, List, [], ◌∷◌,
  ◌++◌, map, reverse, arith, ltb, leb, ◌==◌, if◌then◌else◌, Bool-cases, Option-cases, Text, codes,
  ◌=t◌, =t_iff, =t_refl, =t_sound, All, length, true-ne-false, is_some, is_none, unwrap_or, ◌>>=?◌,
  filter_map,
}
use codeless_workspace.Gateway.Api.Glob.{glob_match}
use codeless_workspace.Gateway.Db.Messages.{EventRow, LogRow}
use codeless_workspace.Gateway.FanIn.{MsgEvent, event_row, log_row}
use codeless_workspace.Gateway.Schema.{User}

pub record StreamQuery : Type 0 where
  pub device : Option ℕ
  pub topic : Option Text
  pub level : Option Text

-- What a subscriber of the bus receives: a message, or word that it lagged.
pub data Received (V : Type 0) : Type 0 where
  message : MsgEvent V → Received V
  lagged : ℕ → Received V

-- A filter that the query may leave out.
abbrev pub passes : {A : Type 0} → (A → Bool) → Option A → Bool
passes test none = true
passes test (some a) = test a

unfoldable pub wants_event : {V : Type 0} → ℕ → StreamQuery → ℕ → EventRow V → Bool
unfolding glob_match
wants_event caller_org q org_id row =
    org_id == caller_org
    && (passes (λ (d : ℕ). row.device_id == d) q.device
        && passes (λ (g : Text). glob_match g row.topic) q.topic)

unfoldable pub wants_log : {V : Type 0} → ℕ → StreamQuery → ℕ → LogRow V → Bool
unfolding glob_match ◌=t◌
wants_log caller_org q org_id row =
    org_id == caller_org
    && (passes (λ (d : ℕ). row.device_id == d) q.device
        && (passes (λ (g : Text). glob_match g row.topic) q.topic
            && passes (λ (l : Text). row.level =t l) q.level))

-- `serde_json::to_string` of a row is a parameter.
module _ {V : Type 0} (event_json : EventRow V → Option Text)
    (log_json : LogRow V → Option Text) where
  unfoldable pub event_frame : ℕ → StreamQuery → Received V → Option Text
  unfolding wants_event
  event_frame caller_org q (message (event_row org_id row)) =
      if wants_event caller_org q org_id row then event_json row else none
  event_frame caller_org q (message (log_row org_id row)) = none
  event_frame caller_org q (lagged n) = none

  unfoldable pub log_frame : ℕ → StreamQuery → Received V → Option Text
  unfolding wants_log
  log_frame caller_org q (message (event_row org_id row)) = none
  log_frame caller_org q (message (log_row org_id row)) =
      if wants_log caller_org q org_id row then log_json row else none
  log_frame caller_org q (lagged n) = none

  -- events::stream::handler and logs::stream::handler: the frames for what is received
  unfoldable pub events_stream : User → StreamQuery → List (Received V) → List Text
  unfolding filter_map event_frame
  events_stream caller q received = filter_map (event_frame caller.org_id q) received

  unfoldable pub logs_stream : User → StreamQuery → List (Received V) → List Text
  unfolding filter_map log_frame
  logs_stream caller q received = filter_map (log_frame caller.org_id q) received
