-- ===== src/Gateway/Api/Tunnels.antt =====
-- hackline/crates/hackline-gateway/src/api/tunnels: create.rs, delete.rs and list.rs.
pub mod Listeners
use codeless_workspace.Base.{
  ℕ, zero, suc, ◌+◌, ◌-◌, ◌*◌, ◌/◌, ◌%◌, ◌^◌, ◌≤◌, ◌<◌, min, max, String, ◌≡◌, refl, sym, ap, ◌∙◌,
  ◌≢◌, ◌↔◌, ◌⊎◌, inl, inr, Bool, true, false, not, ◌&&◌, ◌||◌, Option, none, some, List, [], ◌∷◌,
  ◌++◌, map, reverse, arith, ltb, leb, ◌==◌, if◌then◌else◌, Bool-cases, Option-cases, Text, codes,
  ◌=t◌, =t_iff, =t_refl, =t_sound, All, length, true-ne-false, is_some, is_none, unwrap_or, ◌>>=?◌,
  ℤ, as_u16,
}
use codeless_workspace.Gateway.Error.{Result, ok, err, not_found}
use codeless_workspace.Gateway.Exec.{Exec, raise, modify, pure, attempt, ◌>>=◌, ◌>>◌}
use codeless_workspace.Gateway.Schema.{Database, Device, Tunnel, User}
use codeless_workspace.Gateway.State.{AppState, TunnelEvent, added, on_db, tell}
use codeless_workspace.Gateway.Api.Detail.{Details, tunnel_created, tunnel_deleted}
use codeless_workspace.Gateway.Db.Tunnels.{TunnelWithZid}
use codeless_workspace.Gateway.Db.Tunnels
use codeless_workspace.Gateway.Db.Devices
use codeless_workspace.Gateway.Db.Orgs
use codeless_workspace.Gateway.Db.Audit

pub record CreateTunnel : Type 0 where
  pub device_id : ℕ
  pub kind : Text
  pub local_port : ℤ
  pub public_hostname : Option Text
  pub public_port : Option ℤ

-- The device and its org's slug, for the listener.
unfoldable pub device_and_slug : ℕ → ℕ → Exec Database (Device × Text)
unfolding Devices.get_in_org Orgs.get
device_and_slug org_id device_id = do
  device ← Devices.get_in_org org_id device_id
  org ← Orgs.get device.org_id
  pure (device, org.slug)

unfoldable pub listener : Tunnel → ℤ → Device × Text → TunnelWithZid
listener t public_port (device, org_slug) = record {
  id = t.id;
  device_id = t.device_id;
  zid = device.zid;
  org_slug = org_slug;
  kind = codes "tcp";
  local_port = as_u16 t.local_port;
  public_port = as_u16 public_port;
  enabled = true;
}

announce : Tunnel → ℤ → Result (Device × Text) → AppState → AppState
unfolding listener
announce t public_port (ok pair) s = tell (added (listener t public_port pair)) s
announce t public_port (err e) s = s

-- `if tunnel.kind == "tcp" { if let Some(public_port) = … }`
unfoldable pub hot_start : ℕ → Tunnel → Option ℤ → AppState → AppState
unfolding device_and_slug announce ◌=t◌
hot_start org_id t none s = s
hot_start org_id t (some public_port) s =
    if t.kind =t codes "tcp"
    then announce t public_port (device_and_slug org_id t.device_id s.database).0 s
    else s

module _ (details : Details) where
  -- tunnels::create::handler
  unfoldable pub create : User → CreateTunnel → ℕ → Exec AppState Tunnel
  unfolding Devices.get_in_org Tunnels.insert hot_start Audit.insert
  create caller body epoch = do
    on_db (Devices.get_in_org caller.org_id body.device_id)
    t ← on_db (
        Tunnels.insert body.device_id body.kind body.local_port body.public_hostname
          body.public_port epoch)
    modify (hot_start caller.org_id t t.public_port)
    attempt (
        on_db (
          Audit.insert (some caller.id) none none (codes "tunnel.create")
            (some (
              details.render (
                tunnel_created t.id t.device_id t.kind t.local_port t.public_hostname
                  t.public_port)))
            epoch))
    pure t

  -- The closure of `delete`: the entry is written where a row was deleted.
  unfoldable pub recorded : User → ℕ → Bool → ℕ → Exec Database Bool
  unfolding Audit.insert
  recorded caller id false epoch = pure false
  recorded caller id true epoch = do
    Audit.insert (some caller.id) none none (codes "tunnel.delete")
        (some (details.render (tunnel_deleted id))) epoch
    pure true

  unfoldable pub delete_tunnel : User → ℕ → ℕ → Exec Database Bool
  unfolding Tunnels.delete_in_org recorded
  delete_tunnel caller id epoch = do
    deleted ← Tunnels.delete_in_org caller.org_id id
    recorded caller id deleted epoch

  answer : Bool → Exec AppState (Unit {0})
  answer true = pure tt
  answer false = raise not_found

  -- tunnels::delete::handler
  unfoldable pub delete : User → ℕ → ℕ → Exec AppState (Unit {0})
  unfolding delete_tunnel answer
  delete caller id epoch = do deleted ← on_db (delete_tunnel caller id epoch); answer deleted

-- tunnels::list::handler
unfoldable pub list : User → Exec AppState (List Tunnel)
unfolding Tunnels.list_in_org
list caller = on_db (Tunnels.list_in_org caller.org_id)
