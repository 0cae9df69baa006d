-- ===== src/Gateway/Tunnel/Session/Bookends.antt =====
-- The audit entry that run_bridged_connection of tunnel/tcp_listener.rs leaves.
use codeless_workspace.Base.{
  ℕ, ◌/◌, ◌<◌, ◌≡◌, refl, ap, ◌∙◌, true, false, Option, none, some, List, [], ◌∷◌, ◌++◌, arith,
  ◌==◌, Text, is_some, ◌>>=?◌, find_row, find-append, find-update_self, fresh_rowid,
  fresh_rowid-above, All-map, as_i64, ==_refl, update_rows,
}
use codeless_workspace.Gateway.Schema.{Database, AuditEntry, Tunnel, has_device}
use codeless_workspace.Gateway.Schema.Inserts.{insert_audit, null_or_known}
use codeless_workspace.Gateway.Db.Audit.{tunnel_session, insert_tunnel_session_open}
use codeless_workspace.Gateway.Db.Audit.Tenants.{entry_of}
use codeless_workspace.Gateway.Tunnel.Session.{
  open_session, close_session, counted, run_bridged_connection,
}

-- the bytes of a result
abbrev pub bytes_of : Option (ℕ × ℕ) → ℕ × ℕ
bytes_of none = (0, 0)
bytes_of (some b) = b

abbrev pub opened : Database → ℕ → ℕ → Text → Option Text → ℕ → AuditEntry
opened s tunnel_id device_id request_id peer now_ms_open = record {
  id = fresh_rowid (λ (a : AuditEntry). a.id) s.audit;
  ts = now_ms_open / 1000;
  ts_close = none;
  user_id = none;
  device_id = some device_id;
  tunnel_id = some tunnel_id;
  request_id = some request_id;
  action = tunnel_session;
  peer = peer;
  bytes_up = none;
  bytes_down = none;
  detail = none;
}

-- the entry, closed
abbrev pub stamped : ℕ × ℕ → ℕ → AuditEntry → AuditEntry
stamped b ts_close a = record a {
  ts_close = some (ts_close / 1000);
  bytes_up = some (as_i64 b.0);
  bytes_down = some (as_i64 b.1);
}

closing :
    (id : ℕ) (b : ℕ × ℕ) (ts_close : ℕ) (rows : List AuditEntry) (a : AuditEntry)
    → find_row (λ (e : AuditEntry). e.id == id) rows ≡ some a
    → find_row
        (λ (e : AuditEntry). e.id == id)
        (update_rows (λ (e : AuditEntry). e.id == id) (stamped b ts_close) rows)
      ≡ some (stamped b ts_close a)
closing id b ts_close rows a h =
    find-update_self (λ (e : AuditEntry). e.id == id) (stamped b ts_close) (λ e. refl) rows
    ∙ ap (λ (o : Option AuditEntry). o >>=? λ e. some (stamped b ts_close e)) h

module _ (tunnel_id device_id : ℕ) (request_id : Text) (peer : Option Text) (now_ms_open : ℕ)
    (s : Database) (device : has_device s device_id ≡ true)
    (tunnel : is_some (find_row (λ (t : Tunnel). t.id == tunnel_id) s.tunnels) ≡ true) where
  open_lem : open_session tunnel_id device_id request_id peer now_ms_open s ≡ (
    some (fresh_rowid (λ (a : AuditEntry). a.id) s.audit),
    record s { audit = s.audit ++ opened s tunnel_id device_id request_id peer now_ms_open ∷ [] },
  )
  unfolding open_session insert_audit null_or_known insert_tunnel_session_open
  open_lem = rw (device, tunnel) refl

  -- A connection on a known tunnel of a known device opens an entry with the opening time in seconds,
  -- and closes that entry with the closing time in seconds and the bytes of the bridge, none if it
  -- failed, if the others that write meanwhile leave the entry where it was.
  pub run_bridged_connection_lem :
      (others : Database → Database) (result : Option (ℕ × ℕ)) (epoch ts_close : ℕ) (a : AuditEntry)
      → entry_of
          (others (record s {
            audit = s.audit ++ opened s tunnel_id device_id request_id peer now_ms_open ∷ [];
          }))
          (opened s tunnel_id device_id request_id peer now_ms_open).id
        ≡ some a
      → (entry_of
            (open_session tunnel_id device_id request_id peer now_ms_open s).1
            (opened s tunnel_id device_id request_id peer now_ms_open).id
          ≡ some (opened s tunnel_id device_id request_id peer now_ms_open))
        × (entry_of
              (run_bridged_connection tunnel_id device_id request_id peer now_ms_open others result
                epoch ts_close s)
              (opened s tunnel_id device_id request_id peer now_ms_open).id
            ≡ some (record a {
              ts_close = some (ts_close / 1000);
              bytes_up = some (as_i64 (bytes_of result).0);
              bytes_down = some (as_i64 (bytes_of result).1);
            }))
  unfolding run_bridged_connection counted
  run_bridged_connection_lem others result epoch ts_close a kept = (
    ap (λ (r : Option ℕ × Database). entry_of r.1 (fresh_rowid (λ (a : AuditEntry). a.id) s.audit))
          open_lem
        ∙ (find-append (λ (e : AuditEntry). e.id == fresh_rowid (λ (a : AuditEntry). a.id) s.audit)
            s.audit (opened s tunnel_id device_id request_id peer now_ms_open)
            (==_refl (fresh_rowid (λ (a : AuditEntry). a.id) s.audit))
            (All-map (λ (e : AuditEntry). e.id < fresh_rowid (λ (a : AuditEntry). a.id) s.audit)
              (λ (e : AuditEntry). (e.id == fresh_rowid (λ (a : AuditEntry). a.id) s.audit) ≡ false)
              (λ e h. ground (arith, h)) s.audit
              (fresh_rowid-above (λ (a : AuditEntry). a.id) s.audit))),
    ap
          (λ (r : Option ℕ × Database).
            entry_of (close_session device_id r.0 result epoch ts_close (others r.1))
              (fresh_rowid (λ (a : AuditEntry). a.id) s.audit))
          open_lem
        ∙ closed result,
  )
    where
      closed :
          (result : Option (ℕ × ℕ))
          → entry_of
              (close_session device_id
                (some (fresh_rowid (λ (a : AuditEntry). a.id) s.audit))
                result
                epoch
                ts_close
                (others (record s {
                  audit = s.audit ++ opened s tunnel_id device_id request_id peer now_ms_open ∷ [];
                })))
              (fresh_rowid (λ (a : AuditEntry). a.id) s.audit)
            ≡ some (record a {
              ts_close = some (ts_close / 1000);
              bytes_up = some (as_i64 (bytes_of result).0);
              bytes_down = some (as_i64 (bytes_of result).1);
            })
      closed none =
          closing (fresh_rowid (λ (a : AuditEntry). a.id) s.audit) (0, 0) ts_close
            (others (record s {
              audit = s.audit ++ opened s tunnel_id device_id request_id peer now_ms_open ∷ [];
            })).audit
            a kept
      closed (some b) =
          closing (fresh_rowid (λ (a : AuditEntry). a.id) s.audit) b ts_close
            (others (record s {
              audit = s.audit ++ opened s tunnel_id device_id request_id peer now_ms_open ∷ [];
            })).audit
            a kept
