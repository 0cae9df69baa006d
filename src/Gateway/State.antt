-- ===== src/Gateway/State.antt =====
-- hackline/crates/hackline-gateway/src/state.rs: what the handlers share.
use codeless_workspace.Base.{ℕ, Bool, true, List, [], ◌∷◌, ◌++◌}
use codeless_workspace.Gateway.Exec.{Exec}
use codeless_workspace.Gateway.Schema.{Database}
use codeless_workspace.Gateway.Db.Tunnels.{TunnelWithZid}
use codeless_workspace.Gateway.RttCache.{RttCache}

-- What the handlers of tunnels send to the manager.
pub data TunnelEvent : Type 0 where
  added : TunnelWithZid → TunnelEvent
  removed : ℕ → TunnelEvent

-- The session, the metrics and the bus of live messages are left out.
pub record AppState : Type 0 where
  pub database : Database
  -- `cmd_notifier`: whether the pusher of commands has a wake-up to take
  pub cmd_notified : Bool
  -- `tunnel_tx`: what was sent and not yet received, oldest first
  pub tunnel_events : List TunnelEvent
  pub rtt_cache : RttCache

-- A closure on a connection of the pool.
abbrev pub on_db : {A : Type 0} → Exec Database A → Exec AppState A
on_db m s = ((m s.database).0, record s { database = (m s.database).1 })

-- `cmd_notifier.notify()`
abbrev pub notify : AppState → AppState
notify s = record s { cmd_notified = true }

abbrev pub tell : TunnelEvent → AppState → AppState
tell e s = record s { tunnel_events = s.tunnel_events ++ e ∷ [] }
