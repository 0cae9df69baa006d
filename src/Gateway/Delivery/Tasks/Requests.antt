-- ===== src/Gateway/Delivery/Tasks/Requests.antt =====
-- What the handlers that send and cancel commands keep: a predicate of the state that depends on the
-- database by one that every table operation they call keeps.
use codeless_workspace.Proto.Msg.{content_type_json}
use codeless_workspace.Gateway.Auth.Scope.{check_device}
use codeless_workspace.Gateway.Error.{not_found, bad_request, topic_empty}
use codeless_workspace.Gateway.Db.Devices.{in_org}
use codeless_workspace.Gateway.Db.Audit.Writes.{insert-AuditOnly, AuditOnly}
use codeless_workspace.Gateway.Db.Audit
use codeless_workspace.Gateway.Db.Devices
use codeless_workspace.Gateway.Db.CmdOutbox.{
  enqueue, get_by_cmd_id, cancel, CmdRow, has_cmd_id, row_to_cmd, undelivered,
}
use codeless_workspace.Gateway.Api.Cmd.{
  send, SendCmd, is_empty, cancelled, cancel_handler, saturating_add, ttl_of,
}
use codeless_workspace.Gateway.Api.Detail.{Details, cmd_sent, cmd_cancelled}
use codeless_workspace.Gateway.Exec.{Exec, lift, require, continue, or_raise}
use codeless_workspace.Gateway.State.{AppState, on_db, notify}
use codeless_workspace.Gateway.Json.{Json}
use codeless_workspace.Gateway.Schema.{Database, User}
use codeless_workspace.Gateway.Exec.Preserves.{
  Preserves, require-Preserves, or_raise-Preserves, continue-Preserves,
}
use codeless_workspace.Base.{
  ℕ, Bool, true, false, not, ◌&&◌, Option, none, some, Text, codes, is_some, unwrap_or, ◌>>=?◌,
  find_row,
}

-- What `P` asks of the state stands on what `T` asks of its database, and every table operation
-- that the handlers call keeps it.
pub record Kept (json : Json) (T : Database → Type 0) (P : AppState → Type 0) : Type 1 where
  pub on : (A : Type 0) (m : Exec Database A) → Preserves T m → Preserves P (on_db m)
  pub told : (s : AppState) → P s → P (notify s)
  pub audited : (s s' : Database) → AuditOnly s s' → T s → T s'
  pub queued :
      (cmd_id : Text) (d : ℕ) (topic ct : Text) (v : json.Value) (t e : ℕ)
      → Preserves T (enqueue json cmd_id d topic ct v t e)
  pub dropped : (cmd_id : Text) → Preserves T (cancel cmd_id)

module _ (json : Json) (details : Details) (T : Database → Type 0) (P : AppState → Type 0)
    (kept : Kept json T P) where
  open json use {Value}

  insert-Preserves :
      (user_id device_id tunnel_id : Option ℕ) (action : Text) (detail : Option Text) (epoch : ℕ)
      → Preserves T (Audit.insert user_id device_id tunnel_id action detail epoch)
  insert-Preserves user_id device_id tunnel_id action detail epoch s h =
      kept.audited s (Audit.insert user_id device_id tunnel_id action detail epoch s).1
        (insert-AuditOnly user_id device_id tunnel_id action detail epoch s) h

  get_in_org-Preserves : (org_id id : ℕ) → Preserves T (Devices.get_in_org org_id id)
  unfolding Devices.get_in_org
  get_in_org-Preserves org_id id s h =
      or_raise-Preserves T (find_row (in_org org_id id) s.devices) not_found s h

  -- past an action on the database
  past :
      {A B : Type 0} (m : Exec Database A) (f : A → Exec AppState B) (s : AppState)
      → Preserves T m
      → P s
      → ((a : A) (s : AppState) → P s → P (f a s).1)
      → P (continue (on_db m s) f).1
  past m f s k h l = continue-Preserves P (on_db m s) f (kept.on _ m k s h) l

  pub send-Preserves :
      (user : User) (device_id : ℕ) (topic : Text) (body : SendCmd Value) (cmd_id : Text)
      (now epoch : ℕ)
      → Preserves P (send json details user device_id topic body cmd_id now epoch)
  unfolding send
  send-Preserves user device_id topic body cmd_id now epoch s h =
      let ct : Text = unwrap_or body.content_type content_type_json in
      let ends : ℕ = saturating_add now (ttl_of body.expires_in_ms) in
      continue-Preserves P (lift (check_device json user device_id) s) _ h (λ _ s h.
        past (Devices.get_in_org user.org_id device_id) _ s
          (get_in_org-Preserves user.org_id device_id) h
          (λ _ s h.
            continue-Preserves P (require (not (is_empty topic)) (bad_request topic_empty) s) _
              (require-Preserves P (not (is_empty topic)) (bad_request topic_empty) s h)
              (λ _ s h.
                past (enqueue json cmd_id device_id topic ct body.payload now ends) _ s
                  (kept.queued cmd_id device_id topic ct body.payload now ends) h
                  (λ _ s h.
                    kept.told
                      (on_db
                        (Audit.insert (some user.id) (some device_id) none (codes "cmd.send")
                          (some (details.render (cmd_sent cmd_id topic))) epoch)
                        s).1
                      (kept.on _
                        (Audit.insert (some user.id) (some device_id) none (codes "cmd.send")
                          (some (details.render (cmd_sent cmd_id topic))) epoch)
                        (insert-Preserves (some user.id) (some device_id) none (codes "cmd.send")
                          (some (details.render (cmd_sent cmd_id topic))) epoch)
                        s h)))))

  cancelled-Preserves :
      (user : User) (device_id : ℕ) (cmd_id : Text) (deleted : Bool) (epoch : ℕ)
      → Preserves P (cancelled json details user device_id cmd_id deleted epoch)
  unfolding cancelled
  cancelled-Preserves user device_id cmd_id false epoch s h = h
  cancelled-Preserves user device_id cmd_id true epoch s h =
      kept.on _
        (Audit.insert (some user.id) (some device_id) none (codes "cmd.cancel")
          (some (details.render (cmd_cancelled cmd_id))) epoch)
        (insert-Preserves (some user.id) (some device_id) none (codes "cmd.cancel")
          (some (details.render (cmd_cancelled cmd_id))) epoch)
        s h

  pub cancel_handler-Preserves :
      (user : User) (cmd_id : Text) (now epoch : ℕ)
      → Preserves P (cancel_handler json details user cmd_id now epoch)
  unfolding cancel_handler get_by_cmd_id cancel
  cancel_handler-Preserves user cmd_id now epoch s h =
      let found : Option (CmdRow Value) =
        find_row (has_cmd_id cmd_id) s.database.cmd_outbox >>=? λ r. some (row_to_cmd json now r) in
      continue-Preserves P (or_raise found not_found s) _ (or_raise-Preserves P found not_found s h)
        (λ r s h.
          continue-Preserves P (lift (check_device json user r.row.device_id) s) _ h (λ _ s h.
            past (Devices.get_in_org user.org_id r.row.device_id) _ s
              (get_in_org-Preserves user.org_id r.row.device_id) h
              (λ _ s h.
                cancelled-Preserves user r.row.device_id cmd_id
                  (is_some
                    (find_row (λ r. has_cmd_id cmd_id r && undelivered r) s.database.cmd_outbox))
                  epoch (on_db (cancel cmd_id) s).1
                  (kept.on _ (cancel cmd_id) (kept.dropped cmd_id) s h))))
