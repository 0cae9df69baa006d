-- ===== src/Gateway/Api/Calls.antt =====
-- hackline/crates/hackline-gateway/src/api/api_call/call.rs
pub mod Outcomes
use codeless_workspace.Base.{
  ℕ, zero, suc, ◌+◌, ◌-◌, ◌*◌, ◌/◌, ◌%◌, ◌^◌, ◌≤◌, ◌<◌, min, max, String, ◌≡◌, refl, sym, ap, ◌∙◌,
  ◌≢◌, ◌↔◌, ◌⊎◌, inl, inr, Bool, true, false, not, ◌&&◌, ◌||◌, Option, none, some, List, [], ◌∷◌,
  ◌++◌, map, reverse, arith, ltb, leb, ◌==◌, if◌then◌else◌, Bool-cases, Option-cases, Text, codes,
  ◌=t◌, =t_iff, =t_refl, =t_sound, All, length, true-ne-false, is_some, is_none, unwrap_or, ◌>>=?◌,
}
use codeless_workspace.Gateway.Api.Cmd.{is_empty}
use codeless_workspace.Gateway.Api.Detail.{Details, api_called}
use codeless_workspace.Gateway.Auth.Scope.{check_device}
use codeless_workspace.Gateway.Error.{
  zenoh, bad_request, device_error, reply_decode, topic_empty, bad_zid, request_encode,
}
use codeless_workspace.Gateway.Exec.{
  Exec, raise, attempt, ◌>>◌, pure, ◌>>=◌, or_raise, lift, require,
}
use codeless_workspace.Gateway.Json.{Json}
use codeless_workspace.Gateway.Schema.{User, Database, Device}
use codeless_workspace.Gateway.State.{AppState, on_db}
use codeless_workspace.Proto.Keyexpr.{msg_api}
use codeless_workspace.Proto.Msg.{ApiRequest, ApiReply, content_type_json}
use codeless_workspace.Proto.Zid.{new, to_option}
use codeless_workspace.Gateway.Db.Audit
use codeless_workspace.Gateway.Db.Devices

abbrev pub default_timeout_ms : ℕ
default_timeout_ms = 5000

abbrev pub max_timeout_ms : ℕ
max_timeout_ms = 60000

pub record ApiCallBody (V : Type 0) : Type 0 where
  pub payload : V
  pub timeout_ms : Option ℕ
  pub content_type : Option Text

-- `.unwrap_or(DEFAULT_TIMEOUT_MS).min(MAX_TIMEOUT_MS)`
unfoldable pub timeout_of : Option ℕ → ℕ
timeout_of timeout_ms = min (unwrap_or timeout_ms default_timeout_ms) max_timeout_ms

-- What comes of a query: it could not be sent, a reply (its bytes, or an error of the device), the
-- end of the replies, or the time-out.
pub data Answer : Type 0 where
  unsent : Answer
  replied : Option Text → Answer
  closed : Answer
  timed_out : Answer

-- The responses: 200, 503 and 504.
pub data ApiCallResponse (V : Type 0) : Type 0 where
  answered : (content_type : Text) (reply : V) → ApiCallResponse V
  device_unreachable : ApiCallResponse V
  device_timeout : ApiCallResponse V

-- The derived encoding of a request and decoding of a reply, and the query: its key, its bytes and
-- its time-out.
pub record Queries (V : Type 0) : Type 0 where
  pub encode_request : ApiRequest V → Option Text
  pub decode_reply : Text → Option (ApiReply V)
  pub ask : Text → Text → ℕ → Answer

module _ (json : Json) (details : Details) where
  open json use {Value}

  -- audit_api_call
  unfoldable pub audit_api_call : ℕ → ℕ → Text → Text → ℕ → Exec AppState (Unit {0})
  unfolding Audit.insert
  audit_api_call user_id device_id topic outcome epoch = attempt (
      on_db (
        Audit.insert (some user_id) (some device_id) none (codes "api.call")
          (some (details.render (api_called topic outcome))) epoch))

  module _ (queries : Queries Value) where
    -- The `match` on what was received.
    unfoldable pub respond : User → ℕ → Text → Answer → ℕ → Exec AppState (ApiCallResponse Value)
    unfolding audit_api_call
    respond user device_id topic unsent epoch = raise zenoh
    respond user device_id topic closed epoch = do
      audit_api_call user.id device_id topic (codes "device_unreachable") epoch
      pure device_unreachable
    respond user device_id topic timed_out epoch = do
      audit_api_call user.id device_id topic (codes "device_timeout") epoch
      pure device_timeout
    respond user device_id topic (replied none) epoch = raise (bad_request device_error)
    respond user device_id topic (replied (some bytes)) epoch = do
      reply ← or_raise (queries.decode_reply bytes) (bad_request reply_decode)
      audit_api_call user.id device_id topic (codes "ok") epoch
      pure (answered reply.content_type reply.payload)

    -- The closure that looks the device up.
    unfoldable pub route_to : ℕ → ℕ → Exec Database (Device × Text)
    unfolding Devices.get_in_org Devices.get_with_org_slug
    route_to org_id device_id = do
      Devices.get_in_org org_id device_id
      Devices.get_with_org_slug device_id

    -- api_call::call::handler
    unfoldable pub call :
        User → ℕ → Text → ApiCallBody Value → ℕ → Exec AppState (ApiCallResponse Value)
    unfolding check_device is_empty route_to new timeout_of respond content_type_json
    call user device_id topic body epoch = do
      lift (check_device json user device_id)
      require (not (is_empty topic)) (bad_request topic_empty)
      (device, org_slug) ← on_db (route_to user.org_id device_id)
      zid ← or_raise (to_option (new device.zid)) (bad_request bad_zid)
      bytes ←
          or_raise
            (queries.encode_request (record {
              content_type = unwrap_or body.content_type content_type_json;
              payload = body.payload;
            }))
            (bad_request request_encode)
      respond user device_id topic
          (queries.ask (msg_api org_slug zid topic) bytes (timeout_of body.timeout_ms)) epoch
