-- ===== src/Gateway/Api/Calls/Outcomes.antt =====
-- Who may call a device, and what each outcome of the query becomes.
use codeless_workspace.Base.{
  ℕ, ◌≤◌, ◌≡◌, refl, ◌⊎◌, inl, inr, true, false, Option, none, some, arith, ◌==◌, Bool-cases, Text,
  codes, unwrap_or, find_row,
}
use codeless_workspace.Gateway.Api.Calls.{
  Queries, respond, call, audit_api_call, Answer, route_to, replied, ApiCallResponse,
  device_unreachable, ApiCallBody, device_timeout, unsent, closed, answered, timed_out, timeout_of,
}
use codeless_workspace.Gateway.Api.Cmd.{is_empty}
use codeless_workspace.Gateway.Api.Cmd.Gates.{Refused}
use codeless_workspace.Gateway.Api.Detail.{Details, api_called}
use codeless_workspace.Gateway.Auth.Scope.{check_device}
use codeless_workspace.Gateway.Db.Audit.Writes.{AuditOnly, insert-AuditOnly}
use codeless_workspace.Gateway.Db.Devices.{get_in_org, in_org, get_with_org_slug, with_org_slug}
use codeless_workspace.Gateway.Error.{
  Result, ok, err, GatewayError, zenoh, bad_request, device_error, reply_decode, topic_empty,
  not_found,
}
use codeless_workspace.Gateway.Json.{Json}
use codeless_workspace.Gateway.Schema.{User, Device, Org}
use codeless_workspace.Gateway.State.{AppState}
use codeless_workspace.Proto.Keyexpr.{msg_api}
use codeless_workspace.Proto.Msg.{ApiReply, content_type_json}
use codeless_workspace.Proto.Zid.{Zid, to_option, new}

module _ (json : Json) (details : Details) (queries : Queries json.Value) (user : User)
    (s : AppState) where
  open json use {Value}

  -- A caller whose organisation does not own the device cannot call it: the request fails whatever
  -- the device would answer, and changes nothing.
  pub call_foreign :
      (device_id : ℕ) (topic : Text) (body : ApiCallBody Value) (epoch : ℕ)
      → find_row (in_org user.org_id device_id) s.database.devices ≡ none
      → Refused s (call json details queries user device_id topic body epoch s)
  unfolding call route_to get_in_org
  call_foreign device_id topic body epoch h =
      go (check_device json user device_id) refl (Bool-cases (is_empty topic))
    where
      go :
          (r : Result (Unit {0}))
          → check_device json user device_id ≡ r
          → (is_empty topic ≡ true) ⊎ (is_empty topic ≡ false)
          → Refused s (call json details queries user device_id topic body epoch s)
      go (err x) e t = (x, rw e refl)
      go (ok u) e (inl t) = (bad_request topic_empty, rw (e, t) refl)
      go (ok u) e (inr t) = (not_found, rw (e, t, h) refl)

  abbrev pub decoded : Option (ApiReply Value) → Result (ApiCallResponse Value)
  decoded none = err (bad_request reply_decode)
  decoded (some reply) = ok (answered reply.content_type reply.payload)

  -- The result for an answer.
  unfoldable pub outcome : Answer → Result (ApiCallResponse Value)
  outcome unsent = err zenoh
  outcome closed = ok device_unreachable
  outcome timed_out = ok device_timeout
  outcome (replied none) = err (bad_request device_error)
  outcome (replied (some bytes)) = decoded (queries.decode_reply bytes)

  -- Only the audit may differ, and not where the action failed.
  pub record Logged (r : Result (ApiCallResponse Value) × AppState) : Type 0 where
    pub audit_only : AuditOnly s.database r.1.database
    pub failed_kept : (e : GatewayError) → r.0 ≡ err e → r.1 ≡ s

  audits :
      (device_id : ℕ) (topic text : Text) (epoch : ℕ) (a : ApiCallResponse Value)
      → Logged (ok a, (audit_api_call json details user.id device_id topic text epoch s).1)
  unfolding audit_api_call
  audits device_id topic text epoch a = record {
    audit_only =
        insert-AuditOnly (some user.id) (some device_id) none (codes "api.call")
          (some (details.render (api_called topic text))) epoch s.database;
    failed_kept = λ e h. cc;
  }

  respond_lem :
      (device_id : ℕ) (topic : Text) (a : Answer) (epoch : ℕ)
      → ((respond json details queries user device_id topic a epoch s).0 ≡ outcome a)
        × Logged (respond json details queries user device_id topic a epoch s)
  unfolding respond outcome
  respond_lem device_id topic unsent epoch =
      (refl, record { audit_only = refl; failed_kept = λ e h. refl })
  respond_lem device_id topic (replied none) epoch =
      (refl, record { audit_only = refl; failed_kept = λ e h. refl })
  respond_lem device_id topic closed epoch =
      (refl, audits device_id topic (codes "device_unreachable") epoch device_unreachable)
  respond_lem device_id topic timed_out epoch =
      (refl, audits device_id topic (codes "device_timeout") epoch device_timeout)
  respond_lem device_id topic (replied (some bytes)) epoch = go (queries.decode_reply bytes) refl
    where
      go :
          (o : Option (ApiReply Value))
          → queries.decode_reply bytes ≡ o
          → ((respond json details queries user device_id topic (replied (some bytes)) epoch s).0
              ≡ outcome (replied (some bytes)))
            × Logged
                (respond json details queries user device_id topic (replied (some bytes)) epoch s)
      go none e = rw e (refl, record { audit_only = refl; failed_kept = λ e h. refl })
      go (some r) e =
          rw e (refl, audits device_id topic (codes "ok") epoch (answered r.content_type r.payload))

  -- A caller who may use the device, and whose organisation owns it, asks it at the key of the device
  -- and the topic, for a minute at most, and gets what the answer says: the reply, that the device
  -- is unreachable, that it timed out, or an error. Nothing but the audit changes, and nothing at
  -- all where the request fails.
  pub call_lem :
      (d : Device) (org : Org) (zid : Zid) (topic : Text) (body : ApiCallBody Value) (bytes : Text)
      (epoch : ℕ)
      → check_device json user d.id ≡ ok tt
      → is_empty topic ≡ false
      → find_row (in_org user.org_id d.id) s.database.devices ≡ some d
      → find_row (λ (e : Device). e.id == d.id) s.database.devices ≡ some d
      → find_row (λ (o : Org). o.id == d.org_id) s.database.orgs ≡ some org
      → to_option (new d.zid) ≡ some zid
      → queries.encode_request (record {
        content_type = unwrap_or body.content_type content_type_json;
        payload = body.payload;
      })
        ≡ some bytes
      → ((call json details queries user d.id topic body epoch s).0
          ≡ outcome (queries.ask (msg_api org.slug zid topic) bytes (timeout_of body.timeout_ms)))
        × (timeout_of body.timeout_ms ≤ 60000)
        × Logged (call json details queries user d.id topic body epoch s)
  unfolding call route_to get_in_org timeout_of get_with_org_slug with_org_slug
  call_lem d org zid topic body bytes epoch may named own found home parsed encoded =
      let (a, b) =
        respond_lem d.id topic
          (queries.ask (msg_api org.slug zid topic) bytes (timeout_of body.timeout_ms)) epoch in
      rw (may, named, own, found, home, parsed, encoded) (a, omega arith, b)
