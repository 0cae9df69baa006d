-- ===== src/Gateway/Tunnel/Session.antt =====
-- run_bridged_connection of hackline/crates/hackline-gateway/src/tunnel/tcp_listener.rs: what a bridged
-- connection writes when it opens and when it closes. Others may write between the two.
pub mod Bookends
use codeless_workspace.Base.{
  ℕ, zero, suc, ◌+◌, ◌-◌, ◌*◌, ◌/◌, ◌%◌, ◌^◌, ◌≤◌, ◌<◌, min, max, String, ◌≡◌, refl, sym, ap, ◌∙◌,
  ◌≢◌, ◌↔◌, ◌⊎◌, inl, inr, Bool, true, false, not, ◌&&◌, ◌||◌, Option, none, some, List, [], ◌∷◌,
  ◌++◌, map, reverse, arith, ltb, leb, ◌==◌, if◌then◌else◌, Bool-cases, Option-cases, Text, codes,
  ◌=t◌, =t_iff, =t_refl, =t_sound, All, length, true-ne-false, is_some, is_none, unwrap_or, ◌>>=?◌,
}
use codeless_workspace.Gateway.Error.{Result, ok, err}
use codeless_workspace.Gateway.Exec.{attempt}
use codeless_workspace.Gateway.Schema.{Database}
use codeless_workspace.Gateway.Db.Audit.{insert_tunnel_session_open, finalize_tunnel_session}
use codeless_workspace.Gateway.Db.Devices.{touch_last_seen}

-- `.ok()`
abbrev pub to_ok : {A : Type 0} → Result A → Option A
to_ok (ok a) = some a
to_ok (err e) = none

-- Before the bridge: the id of the audit entry, if it could be written.
unfoldable pub open_session : ℕ → ℕ → Text → Option Text → ℕ → Database → Option ℕ × Database
unfolding insert_tunnel_session_open
open_session tunnel_id device_id request_id peer now_ms_open s = (
  to_ok (insert_tunnel_session_open device_id (some tunnel_id) request_id peer now_ms_open s).0,
  (insert_tunnel_session_open device_id (some tunnel_id) request_id peer now_ms_open s).1,
)

-- A bridge that ended well counts its bytes, up and down, and stamps the device; one that failed
-- counts none.
unfoldable pub counted : ℕ → Option (ℕ × ℕ) → ℕ → Database → (ℕ × ℕ) × Database
unfolding touch_last_seen
counted device_id none epoch s = ((0, 0), s)
counted device_id (some bytes) epoch s = (bytes, (attempt (touch_last_seen device_id epoch) s).1)

unfoldable pub finalized : Option ℕ → (ℕ × ℕ) × Database → ℕ → Database
unfolding finalize_tunnel_session
finalized none (bytes, s) ts_close = s
finalized (some id) ((bytes_up, bytes_down), s) ts_close =
    (attempt (finalize_tunnel_session id bytes_up bytes_down ts_close) s).1

-- After the bridge.
unfoldable pub close_session : ℕ → Option ℕ → Option (ℕ × ℕ) → ℕ → ℕ → Database → Database
unfolding counted finalized
close_session device_id audit_id result epoch ts_close s =
    finalized audit_id (counted device_id result epoch s) ts_close

-- The whole connection, with what others write while the bridge runs.
unfoldable pub run_bridged_connection :
    ℕ
    → ℕ
    → Text
    → Option Text
    → ℕ
    → (Database → Database)
    → Option (ℕ × ℕ)
    → ℕ
    → ℕ
    → Database
    → Database
unfolding open_session close_session
run_bridged_connection tunnel_id device_id request_id peer now_ms_open others result epoch ts_close
      s =
    close_session device_id (open_session tunnel_id device_id request_id peer now_ms_open s).0
      result epoch ts_close
      (others (open_session tunnel_id device_id request_id peer now_ms_open s).1)
