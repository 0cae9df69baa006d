-- ===== src/Gateway/Db/Audit.antt =====
-- hackline/crates/hackline-gateway/src/db/audit.rs
pub mod Tenants
pub mod Writes
use codeless_workspace.Base.{
  ℕ, zero, suc, ◌+◌, ◌-◌, ◌*◌, ◌/◌, ◌%◌, ◌^◌, ◌≤◌, ◌<◌, min, max, String, ◌≡◌, refl, sym, ap, ◌∙◌,
  ◌≢◌, ◌↔◌, ◌⊎◌, inl, inr, Bool, true, false, not, ◌&&◌, ◌||◌, Option, none, some, List, [], ◌∷◌,
  ◌++◌, map, reverse, arith, ltb, leb, ◌==◌, if◌then◌else◌, Bool-cases, Option-cases, Text, codes,
  ◌=t◌, =t_iff, =t_refl, =t_sound, All, length, true-ne-false, is_some, is_none, unwrap_or, ◌>>=?◌,
  find_row, select, update_rows, take, ℤ, pos, negsuc, as_i64,
}
use codeless_workspace.Gateway.Error.{Result, ok, err}
use codeless_workspace.Gateway.Exec.{Exec, gets, modify, pure, ◌>>=◌, ◌>>◌}
use codeless_workspace.Gateway.Schema.{Database, AuditEntry, UserRow, Device}
use codeless_workspace.Gateway.Schema.Inserts.{insert_audit}

unfoldable pub insert :
    Option ℕ → Option ℕ → Option ℕ → Text → Option Text → ℕ → Exec Database (Unit {0})
unfolding insert_audit
insert user_id device_id tunnel_id action detail epoch = do
  insert_audit (record {
    id = 0;
    ts = epoch;
    ts_close = none;
    user_id = user_id;
    device_id = device_id;
    tunnel_id = tunnel_id;
    request_id = none;
    action = action;
    peer = none;
    bytes_up = none;
    bytes_down = none;
    detail = detail;
  })
  pure tt

abbrev pub tunnel_session : Text
tunnel_session = codes "tunnel.session"

unfoldable pub insert_tunnel_session_open : ℕ → Option ℕ → Text → Option Text → ℕ → Exec Database ℕ
unfolding insert_audit
insert_tunnel_session_open device_id tunnel_id request_id peer ts_open_ms = insert_audit (record {
  id = 0;
  ts = ts_open_ms / 1000;
  ts_close = none;
  user_id = none;
  device_id = some device_id;
  tunnel_id = tunnel_id;
  request_id = some request_id;
  action = tunnel_session;
  peer = peer;
  bytes_up = none;
  bytes_down = none;
  detail = none;
})

unfoldable pub finalize_tunnel_session : ℕ → ℕ → ℕ → ℕ → Exec Database (Unit {0})
unfolding update_rows
finalize_tunnel_session id bytes_up bytes_down ts_close_ms = modify λ s. record s {
  audit =
      update_rows (λ (a : AuditEntry). a.id == id)
        (λ a. record a {
          ts_close = some (ts_close_ms / 1000);
          bytes_up = some (as_i64 bytes_up);
          bytes_down = some (as_i64 bytes_down);
        })
        s.audit;
}

unfoldable pub null_or : (ℕ → Bool) → Option ℕ → Bool
null_or p none = true
null_or p (some id) = p id

-- The WHERE of `list_recent`, over the two left joins.
unfoldable pub visible : Database → ℕ → AuditEntry → Bool
unfolding find_row null_or
visible s org_id a =
    null_or (λ id. is_some (find_row (λ (d : Device). d.id == id && d.org_id == org_id) s.devices))
      a.device_id
    && null_or
        (λ id.
          is_some (find_row (λ (u : UserRow). u.user.id == id && u.user.org_id == org_id) s.users))
        a.user_id

-- LIMIT; a negative one is none.
abbrev pub sql_limit : {A : Type 0} → ℤ → List A → List A
sql_limit (pos n) xs = take n xs
sql_limit (negsuc n) xs = xs

unfoldable pub list_recent : ℕ → ℤ → Exec Database (List AuditEntry)
unfolding select visible
list_recent org_id limit = gets λ s. sql_limit limit (reverse (select (visible s org_id) s.audit))

unfoldable pub count : Exec Database ℕ
count = gets λ s. length s.audit
