-- ===== src/Gateway/FanIn.antt =====
-- hackline/crates/hackline-gateway/src/msg_fanin.rs and events_bus.rs, less the tasks that loop.
pub mod Isolation
use codeless_workspace.Base.{
  ℕ, zero, suc, ◌+◌, ◌-◌, ◌*◌, ◌/◌, ◌%◌, ◌^◌, ◌≤◌, ◌<◌, min, max, String, ◌≡◌, refl, sym, ap, ◌∙◌,
  ◌≢◌, ◌↔◌, ◌⊎◌, inl, inr, Bool, true, false, not, ◌&&◌, ◌||◌, Option, none, some, List, [], ◌∷◌,
  ◌++◌, map, reverse, arith, ltb, leb, ◌==◌, if◌then◌else◌, Bool-cases, Option-cases, Text, codes,
  ◌=t◌, =t_iff, =t_refl, =t_sound, All, length, true-ne-false, is_some, is_none, unwrap_or, ◌>>=?◌,
}
use codeless_workspace.Gateway.Db.Orgs
use codeless_workspace.Proto.Zid.{Zid}
use codeless_workspace.Proto.Keyexpr.{MsgKind, event, log, parse_msg_keyexpr}
use codeless_workspace.Proto.Msg.{MsgEnvelope, log_level, log_level_str}
use codeless_workspace.Gateway.Json.{Json}
use codeless_workspace.Gateway.Error.{
  bad_request, unparsable_keyexpr, wrong_kind, bad_envelope, unknown_device, foreign_org,
}
use codeless_workspace.Gateway.Exec.{Exec, or_raise, require, pure, ◌>>=◌, ◌>>◌}
use codeless_workspace.Gateway.Schema.{Database, Org}
use codeless_workspace.Gateway.Db.Devices.{get_by_zid}
use codeless_workspace.Gateway.Db.Messages.{EventRow, LogRow, insert_event, insert_log}

-- What the bus carries; the org is captured when the message is published.
pub data MsgEvent (V : Type 0) : Type 0 where
  event_row : ℕ → EventRow V → MsgEvent V
  log_row : ℕ → LogRow V → MsgEvent V

unfoldable pub same_kind : MsgKind → MsgKind → Bool
same_kind event event = true
same_kind log log = true
same_kind _ _ = false

module _ (json : Json) {U : Type 0} where
  open json use {Value}

  -- The message that the bus gets for a stored row.
  unfoldable pub event_of : ℕ → ℕ → Text → MsgEnvelope U Value → ℕ → MsgEvent Value
  event_of device_id org_id topic env id = event_row org_id (record {
    id = id;
    device_id = device_id;
    topic = topic;
    ts = env.ts;
    content_type = env.content_type;
    payload = env.payload;
  })

  unfoldable pub log_of : ℕ → ℕ → Text → Text → MsgEnvelope U Value → ℕ → MsgEvent Value
  log_of device_id org_id topic level env id = log_row org_id (record {
    id = id;
    device_id = device_id;
    topic = topic;
    ts = env.ts;
    level = level;
    content_type = env.content_type;
    payload = env.payload;
  })

  -- The two arms that persist the envelope.
  persist : MsgKind → ℕ → ℕ → Text → MsgEnvelope U Value → Exec Database (MsgEvent Value)
  unfolding insert_event insert_log log_level log_level_str event_of log_of
  persist event device_id org_id topic env = do
    id ← insert_event json device_id topic env.ts env.content_type env.payload
    pure (event_of device_id org_id topic env id)
  persist log device_id org_id topic env =
      let level = log_level_str (log_level env) in
      do
        id ← insert_log json device_id topic env.ts level env.content_type env.payload
        pure (log_of device_id org_id topic level env id)

  -- The closure that runs on the database.
  store : Text → Text → MsgKind → Text → MsgEnvelope U Value → Exec Database (MsgEvent Value)
  unfolding get_by_zid Orgs.get persist ◌=t◌
  store org_slug zid kind topic env = do
    found ← get_by_zid zid
    (device_id, device_org_id) ← or_raise found (bad_request unknown_device)
    org_row ← Orgs.get device_org_id
    require (org_row.slug =t org_slug) (bad_request foreign_org)
    persist kind device_id device_org_id topic env

  -- handle_sample, on a wire whose derived decoding is a parameter: the message for the bus.
  unfoldable pub handle_sample :
      (Text → Option (MsgEnvelope U Value)) → MsgKind → Text → Text → Exec Database (MsgEvent Value)
  unfolding parse_msg_keyexpr same_kind store
  handle_sample decode expected_kind ke payload = do
    (org_slug, zid, kind, topic) ← or_raise (parse_msg_keyexpr ke) (bad_request unparsable_keyexpr)
    require (same_kind kind expected_kind) (bad_request wrong_kind)
    env ← or_raise (decode payload) (bad_request bad_envelope)
    store org_slug zid.as_str kind topic env
