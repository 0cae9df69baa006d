-- ===== src/Gateway/Api/Tunnels/Listeners.antt =====
-- What the manager of listeners is told of tunnels that come and go.
use codeless_workspace.Base.{
  ℕ, ◌≡◌, refl, Bool, true, false, some, [], ◌∷◌, ◌++◌, ◌==◌, codes, ℤ, find_row,
}
use codeless_workspace.Gateway.Error.{Result, ok, err}
use codeless_workspace.Gateway.Exec.{continue}
use codeless_workspace.Gateway.Schema.{Database, Device, Tunnel, User, Org}
use codeless_workspace.Gateway.State.{AppState, added}
use codeless_workspace.Gateway.Api.Detail.{Details}
use codeless_workspace.Gateway.Api.Tunnels.{delete, delete_tunnel, hot_start, listener, answer}
use codeless_workspace.Gateway.Db.Tunnels.{active_tcp}
use codeless_workspace.Gateway.Db.Devices.{in_org}

-- A deletion tells the manager nothing, whether it succeeds or not: the listener of a deleted tunnel
-- is not closed.
pub delete_keeps_listeners :
    (details : Details) (caller : User) (id epoch : ℕ) (s : AppState)
    → (delete details caller id epoch s).1.tunnel_events ≡ s.tunnel_events
unfolding delete
delete_keeps_listeners details caller id epoch s =
    go (delete_tunnel details caller id epoch s.database)
  where
    done : (b : Bool) (s' : AppState) → (answer details b s').1.tunnel_events ≡ s'.tunnel_events
    done true s' = unfold answer in refl
    done false s' = unfold answer in refl

    go :
        (r : Result Bool × Database)
        → (continue (r.0, record s { database = r.1 }) (answer details)).1.tunnel_events
          ≡ s.tunnel_events
    go (ok b, db) = done b (record s { database = db })
    go (err e, db) = refl

abbrev pub device_id_of : Device → ℕ
device_id_of d = d.id

module _ (org_id : ℕ) (t : Tunnel) (port : ℤ) (s : AppState) (d : Device) (o : Org) where
  -- A tunnel that is hot-started gets the listener that a restart of the gateway gives it, if it is
  -- an enabled TCP tunnel on a public port, and its device is found in the caller's organisation and
  -- has an id of its own.
  pub hot_start-active_tcp :
      t.enabled ≡ true
      → t.kind ≡ codes "tcp"
      → t.public_port ≡ some port
      → find_row (in_org org_id t.device_id) s.database.devices ≡ some d
      → find_row (λ (e : Device). e.id == t.device_id) s.database.devices ≡ some d
      → find_row (λ (p : Org). p.id == d.org_id) s.database.orgs ≡ some o
      → ((hot_start org_id t (some port) s).tunnel_events
          ≡ s.tunnel_events ++ added (listener t port (d, o.slug)) ∷ [])
        × (active_tcp s.database t ≡ some (listener t port (d, o.slug)))
  unfolding hot_start active_tcp listener
  hot_start-active_tcp on tcp public own found home =
      (rw (tcp, own, home) refl, rw (on, tcp, public, found, home) refl)
