-- ===== src/Gateway/Api/AuditLog/Subjects.antt =====
-- What the audit shows of a tunnel that was deleted.
use codeless_workspace.Base.{
  ℕ, ◌≡◌, refl, sym, ap, ◌∙◌, ◌≢◌, Bool, true, false, none, some, List, [], ◌∷◌, ◌++◌, Text, codes,
  ◌>>=?◌, pos, ℤ,
}
use codeless_workspace.Gateway.Api.AuditLog.{project, show_i64, detail_of, detail_id, subject_of}
use codeless_workspace.Gateway.Api.Detail.{Details, tunnel_deleted}
use codeless_workspace.Gateway.Api.Tunnels.{recorded, delete_tunnel}
use codeless_workspace.Gateway.Db.Audit.Writes.{insert-adds}
use codeless_workspace.Gateway.Error.{ok, Result}
use codeless_workspace.Gateway.Exec.{continue-ok, pure}
use codeless_workspace.Gateway.Json.{Json}
use codeless_workspace.Gateway.Schema.{User, Database, AuditEntry}
use codeless_workspace.Gateway.Db.Tunnels
use codeless_workspace.Gateway.Db.Audit

module _ (json : Json) (details : Details)
    (tells : (id : ℕ)
      → (v : json.Value) × (json.from_str (details.render (tunnel_deleted id)) ≡ some v)
        × ((json.get v (codes "tunnel_id") >>=? json.as_i64) ≡ some (pos id))) where
  false-true : Result.ok false ≢ ok true
  false-true h = cc

  subject_from :
      (e : AuditEntry) (s : Text) (v : json.Value) (t : ℤ)
      → e.tunnel_id ≡ none
      → e.device_id ≡ none
      → e.detail ≡ some s
      → json.from_str s ≡ some v
      → (json.get v (codes "tunnel_id") >>=? json.as_i64) ≡ some t
      → (project json e).subject ≡ codes "tunnel:" ++ show_i64 t
  unfolding project detail_of detail_id subject_of
  subject_from e s v t a b c d k = rw (a, b, c, d, k) refl

  recorded_subject :
      (caller : User) (id epoch : ℕ) (deleted : Bool) (s : Database)
      → (recorded details caller id deleted epoch s).0 ≡ ok true
      → (e : AuditEntry) × ((recorded details caller id deleted epoch s).1.audit
          ≡ s.audit ++ e ∷ [])
        × ((project json e).subject ≡ codes "tunnel:" ++ show_i64 (pos id))
  unfolding recorded
  recorded_subject caller id epoch false s h = absurd (false-true h)
  recorded_subject caller id epoch true s h =
      let (u, written, same) =
        continue-ok
          (Audit.insert (some caller.id) none none (codes "tunnel.delete")
            (some (details.render (tunnel_deleted id))) epoch s)
          (λ _. pure true) h in
      let (e, _, no_device, no_tunnel, detail, rows) =
        insert-adds (some caller.id) none none (codes "tunnel.delete")
          (some (details.render (tunnel_deleted id))) epoch s written in
      let (v, parsed, named) = tells id in
      (
        e,
        ap (λ r. r.1.audit) same ∙ rows,
        subject_from e (details.render (tunnel_deleted id)) v (pos id) no_tunnel no_device detail
            parsed named,
      )

  -- A deletion that answers leaves an audit entry that names the deleted tunnel as its subject,
  -- although no column refers to it: the id is read from the detail. This holds where the printed
  -- detail of a deletion is parsed to an object with that id.
  pub delete_tunnel_subject :
      (caller : User) (id epoch : ℕ) (s : Database)
      → (delete_tunnel details caller id epoch s).0 ≡ ok true
      → (before : List AuditEntry) × (e : AuditEntry) × ((delete_tunnel details caller id epoch
            s).1.audit
          ≡ before ++ e ∷ [])
        × ((project json e).subject ≡ codes "tunnel:" ++ show_i64 (pos id))
  unfolding delete_tunnel
  delete_tunnel_subject caller id epoch s h =
      let (deleted, gone, same) =
        continue-ok (Tunnels.delete_in_org caller.org_id id s)
          (λ deleted. recorded details caller id deleted epoch) h in
      let after : Database = (Tunnels.delete_in_org caller.org_id id s).1 in
      let (e, rows, subject) =
        recorded_subject caller id epoch deleted after (sym (ap (λ r. r.0) same) ∙ h) in
      (after.audit, e, ap (λ r. r.1.audit) same ∙ rows, subject)
