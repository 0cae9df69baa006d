-- ===== src/Gateway/Db/Audit/Writes.antt =====
-- What writing an audit entry leaves alone.
use codeless_workspace.Base.{
  ℕ, ◌≡◌, refl, inl, inr, ◌&&◌, Option, none, ◌==◌, Bool-cases, Text, is_some, find_row, ◌++◌, ◌≢◌,
  ◌∷◌, [], sym, ◌∙◌, fresh_rowid,
}
use codeless_workspace.Gateway.Db.Audit.{insert}
use codeless_workspace.Gateway.Error.{db, foreign_key, Result, ok, err, GatewayError}
use codeless_workspace.Gateway.Exec.{continue}
use codeless_workspace.Gateway.Schema.{Database, AuditEntry, has_device, Tunnel, UserRow}
use codeless_workspace.Gateway.Schema.Inserts.{insert_audit, null_or_known}

-- only the table `audit` differs
abbrev pub AuditOnly : Database → Database → Type 0
AuditOnly s s' = s' ≡ record s { audit = s'.audit }

pub insert_audit-AuditOnly : (e : AuditEntry) (s : Database) → AuditOnly s (insert_audit e s).1
unfolding insert_audit
insert_audit-AuditOnly e s =
    elim (Bool-cases (
      null_or_known (λ id. is_some (find_row (λ (u : UserRow). u.user.id == id) s.users)) e.user_id
      && null_or_known (has_device s) e.device_id
      && null_or_known (λ id. is_some (find_row (λ (t : Tunnel). t.id == id) s.tunnels))
          e.tunnel_id)) [ inl h ↦ rw h refl | inr h ↦ rw h refl ]

pub insert-AuditOnly :
    (user_id device_id tunnel_id : Option ℕ) (action : Text) (detail : Option Text) (epoch : ℕ)
    (s : Database)
    → AuditOnly s (insert user_id device_id tunnel_id action detail epoch s).1
unfolding insert
insert-AuditOnly user_id device_id tunnel_id action detail epoch s =
    forgets (insert_audit entry s) (insert_audit-AuditOnly entry s)
  where
    entry : AuditEntry
    entry = record {
      id = 0;
      ts = epoch;
      ts_close = none;
      user_id = user_id;
      device_id = device_id;
      tunnel_id = tunnel_id;
      request_id = none;
      action = action;
      peer = none;
      bytes_up = none;
      bytes_down = none;
      detail = detail;
    }

    forgets :
        (r : Result ℕ × Database) → AuditOnly s r.1 → AuditOnly s (continue r (λ _ s. (ok tt, s))).1
    forgets (ok id, s') h = h
    forgets (err e, s') h = h

refused-ok : {A : Type 0} {e : GatewayError} {a : A} → Result.err e ≢ ok a
refused-ok e = cc

-- A write that succeeds adds the entry at the end, under a fresh id.
pub insert-adds :
    (user_id device_id tunnel_id : Option ℕ) (action : Text) (detail : Option Text) (epoch : ℕ)
    (s : Database)
    → (insert user_id device_id tunnel_id action detail epoch s).0 ≡ ok tt
    → (e : AuditEntry) × (e.user_id ≡ user_id)
      × (e.device_id ≡ device_id)
      × (e.tunnel_id ≡ tunnel_id)
      × (e.detail ≡ detail)
      × ((insert user_id device_id tunnel_id action detail epoch s).1.audit ≡ s.audit ++ e ∷ [])
unfolding insert insert_audit
insert-adds user_id device_id tunnel_id action detail epoch s h =
    elim (Bool-cases (
      null_or_known (λ id. is_some (find_row (λ (u : UserRow). u.user.id == id) s.users)) user_id
      && null_or_known (has_device s) device_id
      && null_or_known (λ id. is_some (find_row (λ (t : Tunnel). t.id == id) s.tunnels))
          tunnel_id)) [
            | inr bad ↦ absurd (refused-ok {e = db foreign_key} (sym (rw bad refl) ∙ h))
            | inl fits ↦ (
              record {
                id = fresh_rowid (λ (a : AuditEntry). a.id) s.audit;
                ts = epoch;
                ts_close = none;
                user_id = user_id;
                device_id = device_id;
                tunnel_id = tunnel_id;
                request_id = none;
                action = action;
                peer = none;
                bytes_up = none;
                bytes_down = none;
                detail = detail;
              },
              refl,
              refl,
              refl,
              refl,
              rw fits refl,
            )
          ]
