-- ===== src/Gateway/Tunnel/Manager.antt =====
-- hackline/crates/hackline-gateway/src/tunnel/manager.rs
pub mod Restarts
use codeless_workspace.Base.{
  ℕ, zero, suc, ◌+◌, ◌-◌, ◌*◌, ◌/◌, ◌%◌, ◌^◌, ◌≤◌, ◌<◌, min, max, String, ◌≡◌, refl, sym, ap, ◌∙◌,
  ◌≢◌, ◌↔◌, ◌⊎◌, inl, inr, Bool, true, false, not, ◌&&◌, ◌||◌, Option, none, some, List, [], ◌∷◌,
  ◌++◌, map, reverse, arith, ltb, leb, ◌==◌, if◌then◌else◌, Bool-cases, Option-cases, Text, codes,
  ◌=t◌, =t_iff, =t_refl, =t_sound, All, length, true-ne-false, is_some, is_none, unwrap_or, ◌>>=?◌,
}
use codeless_workspace.Gateway.Db.Tunnels.{list_active_tcp, TunnelWithZid}
use codeless_workspace.Gateway.Error.{Result, ok, err, or_empty}
use codeless_workspace.Gateway.Schema.{Database}
use codeless_workspace.Gateway.State.{TunnelEvent, added, removed}
use codeless_workspace.Proto.Zid.{Zid, new, to_option}

-- What a listener task is started with. Its socket, the session and the pool are left out.
pub record Listener : Type 0 where
  pub tunnel_id : ℕ
  pub device_id : ℕ
  pub org_slug : Text
  pub zid : Zid
  pub local_port : ℕ
  pub public_port : ℕ

started_for : TunnelWithZid → Option Zid → List Listener → List Listener
started_for t none live = live
started_for t (some zid) live =
    live
    ++ record {
      tunnel_id = t.id;
      device_id = t.device_id;
      org_slug = t.org_slug;
      zid = zid;
      local_port = t.local_port;
      public_port = t.public_port;
    }
      ∷ []

-- spawn_listener: an id that does not parse is skipped
unfoldable pub spawn_listener : List Listener → TunnelWithZid → List Listener
unfolding started_for new
spawn_listener live t = started_for t (to_option (new t.zid)) live

unfoldable pub spawn_all : List Listener → List TunnelWithZid → List Listener
unfolding spawn_listener
spawn_all live [] = live
spawn_all live (t ∷ ts) = spawn_all (spawn_listener live t) ts

-- The arms of the loop. A removal is only logged.
unfoldable pub receive : List Listener → TunnelEvent → List Listener
unfolding spawn_listener
receive live (added t) = spawn_listener live t
receive live (removed id) = live

unfoldable pub receive_all : List Listener → List TunnelEvent → List Listener
unfolding receive
receive_all live [] = live
receive_all live (e ∷ es) = receive_all (receive live e) es

-- The listeners that a start of the gateway opens.
unfoldable pub started : Database → List Listener
unfolding spawn_all list_active_tcp
started s = spawn_all [] (or_empty (list_active_tcp s).0)

-- run
unfoldable pub run : Database → List TunnelEvent → List Listener
unfolding started receive_all
run s events = receive_all (started s) events
