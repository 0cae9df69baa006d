-- ===== src/Gateway/Api/Info.antt =====
-- hackline/crates/hackline-gateway/src/api/devices/info.rs
pub mod Answers
use codeless_workspace.Base.{
  ℕ, zero, suc, ◌+◌, ◌-◌, ◌*◌, ◌/◌, ◌%◌, ◌^◌, ◌≤◌, ◌<◌, min, max, String, ◌≡◌, refl, sym, ap, ◌∙◌,
  ◌≢◌, ◌↔◌, ◌⊎◌, inl, inr, Bool, true, false, not, ◌&&◌, ◌||◌, Option, none, some, List, [], ◌∷◌,
  ◌++◌, map, reverse, arith, ltb, leb, ◌==◌, if◌then◌else◌, Bool-cases, Option-cases, Text, codes,
  ◌=t◌, =t_iff, =t_refl, =t_sound, All, length, true-ne-false, is_some, is_none, unwrap_or, ◌>>=?◌,
}
use codeless_workspace.Gateway.Api.Calls.{Answer, unsent, closed, timed_out, replied}
use codeless_workspace.Gateway.Error.{zenoh, ok, err, Result, bad_request, agent_error, bad_zid}
use codeless_workspace.Gateway.Exec.{Exec, ◌>>=◌, or_raise, lift}
use codeless_workspace.Gateway.Schema.{User, Database}
use codeless_workspace.Proto.AgentInfo.{InfoWire, AgentInfo}
use codeless_workspace.Proto.Keyexpr.{info}
use codeless_workspace.Proto.Zid.{new, to_option}
use codeless_workspace.Gateway.Db.Devices
use codeless_workspace.Gateway.Db.Orgs

-- 200, 503, 504 and 502.
pub data InfoResponse : Type 0 where
  answered_info : AgentInfo → InfoResponse
  agent_unreachable agent_timeout bad_reply : InfoResponse

module _ (wire : InfoWire) where
  unfoldable pub decoded_info : Option AgentInfo → InfoResponse
  decoded_info none = bad_reply
  decoded_info (some i) = answered_info i

  unfoldable pub respond_info : Answer → Result InfoResponse
  unfolding decoded_info
  respond_info unsent = err zenoh
  respond_info closed = ok agent_unreachable
  respond_info timed_out = ok agent_timeout
  respond_info (replied none) = err (bad_request agent_error)
  respond_info (replied (some bytes)) = ok (decoded_info (wire.decode bytes))

  -- devices::info::handler; `ask` is the query at a key
  unfoldable pub info_handler : (Text → Answer) → User → ℕ → Exec Database InfoResponse
  unfolding Devices.get_in_org Orgs.get new respond_info
  info_handler ask caller id = do
    d ← Devices.get_in_org caller.org_id id
    o ← Orgs.get caller.org_id
    zid ← or_raise (to_option (new d.zid)) (bad_request bad_zid)
    lift (respond_info (ask (info o.slug zid)))
