-- ===== src/Gateway/Tunnel/Manager/Restarts.antt =====
-- The listeners of a running gateway, against those of one that is started anew.
use codeless_workspace.Base.{
  ℕ, ◌≡◌, refl, sym, ap, ◌∙◌, true, some, List, [], ◌∷◌, ◌++◌, ◌==◌, codes, ℤ, find_row, filter_map,
  filter_map-append,
}
use codeless_workspace.Gateway.Api.Tunnels.{hot_start, listener}
use codeless_workspace.Gateway.Api.Tunnels.Listeners.{hot_start-active_tcp}
use codeless_workspace.Gateway.Db.Devices.{in_org}
use codeless_workspace.Gateway.Db.Tunnels.{TunnelWithZid, list_active_tcp, active_tcp, route}
use codeless_workspace.Gateway.Schema.{Tunnel, Device, Org}
use codeless_workspace.Gateway.State.{AppState, added}
use codeless_workspace.Gateway.Tunnel.Manager.{
  spawn_all, Listener, spawn_listener, run, started, receive_all, receive,
}

spawn_all-append :
    (live : List Listener) (ts : List TunnelWithZid) (t : TunnelWithZid)
    → spawn_all live (ts ++ t ∷ []) ≡ spawn_listener (spawn_all live ts) t
unfolding spawn_all
spawn_all-append live [] t = refl
spawn_all-append live (x ∷ ts) t = spawn_all-append (spawn_listener live x) ts t

module _ (org_id : ℕ) (t : Tunnel) (port : ℤ) (s : AppState) (d : Device) (o : Org) where
  -- A gateway whose listeners are those of a start from the table without the new row, with no event
  -- waiting, is told of a new tunnel and listens as one that is started anew: where the tunnel is an
  -- enabled TCP tunnel on a public port and the newest row, and its device is found in the caller's
  -- organisation and under an id of its own, the message that the creation sends makes the manager
  -- open exactly what a start from the table with the new row opens.
  pub hot_start-started :
      t.enabled ≡ true
      → t.kind ≡ codes "tcp"
      → t.public_port ≡ some port
      → find_row (in_org org_id t.device_id) s.database.devices ≡ some d
      → find_row (λ (e : Device). e.id == t.device_id) s.database.devices ≡ some d
      → find_row (λ (p : Org). p.id == d.org_id) s.database.orgs ≡ some o
      → (old : List Tunnel) → s.database.tunnels ≡ old ++ t ∷ []
      → s.tunnel_events ≡ []
      → run (record s.database { tunnels = old }) (hot_start org_id t (some port) s).tunnel_events
        ≡ started s.database
  unfolding run started list_active_tcp receive_all receive active_tcp route
  hot_start-started on tcp public own found home old rows quiet =
      let (told, again) = hot_start-active_tcp org_id t port s d o on tcp public own found home in
      let l : TunnelWithZid = listener t port (d, o.slug) in
      ap (receive_all (started (record s.database { tunnels = old })))
        (told ∙ ap (λ es. es ++ added l ∷ []) quiet)
      ∙ sym (
          ap (λ ts. spawn_all [] (filter_map (active_tcp s.database) ts)) rows
          ∙ ap (spawn_all []) (filter_map-append (active_tcp s.database) old t l again)
          ∙ spawn_all-append [] (filter_map (active_tcp s.database) old) l)
