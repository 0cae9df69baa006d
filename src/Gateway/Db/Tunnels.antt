-- ===== src/Gateway/Db/Tunnels.antt =====
-- hackline/crates/hackline-gateway/src/db/tunnels.rs
use codeless_workspace.Base.{
  ℕ, Bool, ◌&&◌, Option, none, some, List, ◌==◌, if◌then◌else◌, Text, codes, ◌=t◌, is_some, ◌>>=?◌,
  find_row, select, ℤ, as_u16, filter_map,
}
use codeless_workspace.Gateway.Error.{ok, not_found}
use codeless_workspace.Gateway.Exec.{Exec, gets, or_raise, ◌>>=◌}
use codeless_workspace.Gateway.Schema.{Database, Org, Device, Tunnel}
use codeless_workspace.Gateway.Schema.Deletes.{delete_tunnels}
use codeless_workspace.Gateway.Schema.Inserts.{insert_tunnel}

pub record TunnelWithZid : Type 0 where
  pub id : ℕ
  pub device_id : ℕ
  pub zid : Text
  pub org_slug : Text
  pub kind : Text
  pub local_port : ℕ
  pub public_port : ℕ
  pub enabled : Bool

unfoldable pub get : ℕ → Exec Database Tunnel
unfolding find_row
get id s = or_raise (find_row (λ (t : Tunnel). t.id == id) s.tunnels) not_found s

unfoldable pub insert : ℕ → Text → ℤ → Option Text → Option ℤ → ℕ → Exec Database Tunnel
unfolding insert_tunnel get
insert device_id kind local_port public_hostname public_port epoch = do
  id ← insert_tunnel device_id kind local_port public_hostname public_port epoch
  get id

unfoldable pub list : Exec Database (List Tunnel)
list = gets λ s. s.tunnels

-- the device of the tunnel belongs to the org
unfoldable pub owned_by : Database → ℕ → Tunnel → Bool
unfolding find_row
owned_by s org_id t =
    is_some (find_row (λ (d : Device). d.id == t.device_id && d.org_id == org_id) s.devices)

unfoldable pub list_in_org : ℕ → Exec Database (List Tunnel)
unfolding select owned_by
list_in_org org_id = gets λ s. select (owned_by s org_id) s.tunnels

unfoldable pub delete_in_org : ℕ → ℕ → Exec Database Bool
unfolding delete_tunnels find_row owned_by
delete_in_org org_id id s = (
  ok (is_some (find_row (λ (t : Tunnel). t.id == id && owned_by s org_id t) s.tunnels)),
  delete_tunnels (λ t. t.id == id && owned_by s org_id t) s,
)

-- tunnels JOIN devices JOIN orgs
unfoldable pub route : Database → Tunnel → Option (Device × Org)
unfolding find_row
route s t = find_row (λ (d : Device). d.id == t.device_id) s.devices >>=? λ d.
    find_row (λ (o : Org). o.id == d.org_id) s.orgs >>=? λ o. some (d, o)

unfoldable pub active_tcp : Database → Tunnel → Option TunnelWithZid
unfolding route ◌=t◌
active_tcp s t =
    if t.enabled && t.kind =t codes "tcp"
    then (t.public_port >>=? λ port. route s t >>=? λ (d, o). some (record {
      id = t.id;
      device_id = t.device_id;
      zid = d.zid;
      org_slug = o.slug;
      kind = t.kind;
      local_port = as_u16 t.local_port;
      public_port = as_u16 port;
      enabled = t.enabled;
    }))
    else none

unfoldable pub list_active_tcp : Exec Database (List TunnelWithZid)
unfolding filter_map active_tcp
list_active_tcp = gets λ s. filter_map (active_tcp s) s.tunnels
