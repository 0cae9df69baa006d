-- ===== src/Gateway/Api/Cmd/Gates.antt =====
-- Who may send, cancel and list commands, and what a sent command leaves.
use codeless_workspace.Gateway.Db.Audit.Writes.{insert-AuditOnly}
use codeless_workspace.Base.{
  ℕ, ◌≤◌, ◌<◌, ◌≡◌, refl, ap, ◌∙◌, true, false, Option, none, some, Text, codes, =t_refl, length,
  unwrap_or, count_rows, find_row, find-append, ℤ, find_row-none,
}
use codeless_workspace.Gateway.Json.{Json}
use codeless_workspace.Gateway.Error.{Result, ok, err, GatewayError, not_found}
use codeless_workspace.Gateway.Schema.{User, OutboxRow, has_device, Device}
use codeless_workspace.Gateway.State.{AppState}
use codeless_workspace.Gateway.Auth.Scope.{check_device}
use codeless_workspace.Gateway.Api.Detail.{Details}
use codeless_workspace.Gateway.Api.Cmd.{
  SendCmd, send, cancel_handler, list_handler, is_empty, content_type_json, saturating_add, ttl_of,
  cmd_sent,
}
use codeless_workspace.Gateway.Db.CmdOutbox.{
  cmd_max_per_device, payload_cap, unacked, has_cmd_id, new_row,
}
use codeless_workspace.Gateway.Db.CmdOutbox.Enqueue.{enqueue_lem, queued}
use codeless_workspace.Gateway.Db.CmdOutbox.Effects.{row_of}
use codeless_workspace.Gateway.Db.Devices.{in_org, get_in_org}

-- The action failed and left the state as it was.
abbrev pub Refused : {S A : Type 0} → S → Result A × S → Type 0
Refused s r = (e : GatewayError) × (r ≡ (err e, s))

module _ (json : Json) (details : Details) (user : User) (s : AppState) where
  open json use {Value}

  -- A caller whose organisation does not own the device can neither send it a command, nor list its
  -- commands, nor cancel one of them: each request fails and changes nothing.
  pub handlers_foreign :
      (device_id : ℕ)
      → find_row (in_org user.org_id device_id) s.database.devices ≡ none
      → ((topic : Text) (body : SendCmd Value) (cmd_id : Text) (now epoch : ℕ)
          → Refused s (send json details user device_id topic body cmd_id now epoch s))
        × ((status : Option Text) (cursor : Option ℤ) (limit : ℤ) (now : ℕ)
            → Refused s (list_handler json details user device_id status cursor limit now s))
        × ((cmd_id : Text) (row : OutboxRow) (now epoch : ℕ)
            → row_of s.database cmd_id ≡ some row
            → row.device_id ≡ device_id
            → Refused s (cancel_handler json details user cmd_id now epoch s))
  unfolding send list_handler cancel_handler get_in_org
  handlers_foreign device_id h = (
    λ topic body cmd_id now epoch.
        sends topic body cmd_id now epoch (check_device json user device_id) refl,
    λ status cursor limit now.
        lists status cursor limit now (check_device json user device_id) refl,
    λ cmd_id row now epoch found own.
        cancels cmd_id row now epoch found own (check_device json user device_id) refl,
  )
    where
      sends :
          (topic : Text) (body : SendCmd Value) (cmd_id : Text) (now epoch : ℕ)
          (r : Result (Unit {0}))
          → check_device json user device_id ≡ r
          → Refused s (send json details user device_id topic body cmd_id now epoch s)
      sends topic body cmd_id now epoch (ok u) e = (not_found, rw (e, h) refl)
      sends topic body cmd_id now epoch (err x) e = (x, rw e refl)

      lists :
          (status : Option Text) (cursor : Option ℤ) (limit : ℤ) (now : ℕ) (r : Result (Unit {0}))
          → check_device json user device_id ≡ r
          → Refused s (list_handler json details user device_id status cursor limit now s)
      lists status cursor limit now (ok u) e = (not_found, rw (e, h) refl)
      lists status cursor limit now (err x) e = (x, rw e refl)

      cancels :
          (cmd_id : Text) (row : OutboxRow) (now epoch : ℕ)
          → row_of s.database cmd_id ≡ some row
          → row.device_id ≡ device_id
          → (r : Result (Unit {0})) → check_device json user device_id ≡ r
          → Refused s (cancel_handler json details user cmd_id now epoch s)
      cancels cmd_id row now epoch found own (ok u) e = (not_found, rw (found, own, e, h) refl)
      cancels cmd_id row now epoch found own (err x) e = (x, rw (found, own, e) refl)

  -- A caller who may use the device, and whose organisation owns it, sends it a command: the answer
  -- is the id, the command waits in the outbox until its time to live is over, and the pusher is
  -- woken. This holds for a topic that is not empty, a payload that encodes within the cap, a device
  -- with room, and a fresh id.
  pub send_lem :
      (d : Device) (topic : Text) (body : SendCmd Value) (bytes cmd_id : Text) (now epoch : ℕ)
      → check_device json user d.id ≡ ok tt
      → find_row (in_org user.org_id d.id) s.database.devices ≡ some d
      → is_empty topic ≡ false
      → json.to_vec body.payload ≡ some bytes
      → length bytes ≤ payload_cap
      → count_rows (unacked d.id) s.database.cmd_outbox < cmd_max_per_device
      → find_row (has_cmd_id cmd_id) s.database.cmd_outbox ≡ none
      → has_device s.database d.id ≡ true
      → ((send json details user d.id topic body cmd_id now epoch s).0 ≡ ok cmd_id)
        × (row_of (send json details user d.id topic body cmd_id now epoch s).1.database cmd_id
            ≡ some (
                queued s.database cmd_id d.id topic
                  (unwrap_or body.content_type content_type_json)
                  bytes
                  now
                  (saturating_add now (ttl_of body.expires_in_ms))))
        × ((send json details user d.id topic body cmd_id now epoch s).1.cmd_notified ≡ true)
  unfolding send get_in_org has_cmd_id new_row
  send_lem d topic body bytes cmd_id now epoch may own named encoded fits room new known =
      rw
        (
          may,
          own,
          named,
          (enqueue_lem json cmd_id d.id topic (unwrap_or body.content_type content_type_json)
                body.payload bytes now (saturating_add now (ttl_of body.expires_in_ms)) s.database
                encoded).0
              fits room new known,
        )
        (
          refl,
          ap (λ db. row_of db cmd_id)
                (insert-AuditOnly (some user.id) (some d.id) none (codes "cmd.send")
                  (some (details.render (cmd_sent cmd_id topic))) epoch _)
              ∙ find-append (has_cmd_id cmd_id) s.database.cmd_outbox
                  (queued s.database cmd_id d.id topic
                    (unwrap_or body.content_type content_type_json) bytes now
                    (saturating_add now (ttl_of body.expires_in_ms)))
                  (=t_refl cmd_id) (find_row-none (has_cmd_id cmd_id) s.database.cmd_outbox new),
          refl,
        )
