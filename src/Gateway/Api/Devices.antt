-- ===== src/Gateway/Api/Devices.antt =====
-- hackline/crates/hackline-gateway/src/api/devices: create.rs, delete.rs, get.rs, list.rs and the
-- answer of health.rs.
pub mod Deleted
use codeless_workspace.Base.{
  ℕ, zero, suc, ◌+◌, ◌-◌, ◌*◌, ◌/◌, ◌%◌, ◌^◌, ◌≤◌, ◌<◌, min, max, String, ◌≡◌, refl, sym, ap, ◌∙◌,
  ◌≢◌, ◌↔◌, ◌⊎◌, inl, inr, Bool, true, false, not, ◌&&◌, ◌||◌, Option, none, some, List, [], ◌∷◌,
  ◌++◌, map, reverse, arith, ltb, leb, ◌==◌, if◌then◌else◌, Bool-cases, Option-cases, Text, codes,
  ◌=t◌, =t_iff, =t_refl, =t_sound, All, length, true-ne-false, is_some, is_none, unwrap_or, ◌>>=?◌,
}
use codeless_workspace.Gateway.Error.{not_found, ok}
use codeless_workspace.Gateway.Exec.{Exec, raise, gets, pure, ◌>>=◌, ◌>>◌}
use codeless_workspace.Gateway.Schema.{Database, Device, User}
use codeless_workspace.Gateway.State.{AppState, on_db}
use codeless_workspace.Gateway.RttCache.{RttCache, cached_rtt_ms, online_from_last_seen}
use codeless_workspace.Gateway.Api.Detail.{Details, device_created, device_deleted}
use codeless_workspace.Gateway.Db.Devices
use codeless_workspace.Gateway.Db.Orgs
use codeless_workspace.Gateway.Db.Audit

module _ (details : Details) where
  -- devices::create::handler; a fault of the audit is the request's, and the device stays
  unfoldable pub create : User → Text → Text → ℕ → Exec Database Device
  unfolding Devices.insert Audit.insert
  create caller zid label epoch = do
    device ← Devices.insert caller.org_id zid label epoch
    Audit.insert (some caller.id) none none (codes "device.create")
        (some (details.render (device_created device.id device.zid device.label))) epoch
    pure device

  finish : User → Device → Bool → ℕ → Exec Database (Unit {0})
  unfolding Audit.insert
  finish caller device false epoch = raise not_found
  finish caller device true epoch = do
    Audit.insert (some caller.id) none none (codes "device.delete")
        (some (details.render (device_deleted device.id device.zid))) epoch
    pure tt

  -- devices::delete::handler
  unfoldable pub delete : User → ℕ → ℕ → Exec Database (Unit {0})
  unfolding Devices.get_in_org Devices.delete_in_org finish
  delete caller id epoch = do
    device ← Devices.get_in_org caller.org_id id
    deleted ← Devices.delete_in_org caller.org_id id
    finish caller device deleted epoch

-- devices::get::handler
unfoldable pub get : User → ℕ → Exec Database Device
unfolding Devices.get_in_org
get caller id = Devices.get_in_org caller.org_id id

-- devices::list::handler
unfoldable pub list : User → Exec Database (List Device)
unfolding Devices.list_in_org
list caller = Devices.list_in_org caller.org_id

pub record DeviceHealth : Type 0 where
  pub online : Bool
  pub last_seen_at : Option ℕ
  pub rtt_ms : Option ℕ

probe_into : User → Device → ℕ → ℕ → Option ℕ → ℕ → Exec AppState DeviceHealth
unfolding cached_rtt_ms online_from_last_seen
probe_into caller device now_secs now probed later s =
    let (rtt_ms, cache) = cached_rtt_ms s.rtt_cache (caller.org_id, device.id) now probed later in
    (
      ok (record {
        online = online_from_last_seen device.last_seen_at now_secs;
        last_seen_at = device.last_seen_at;
        rtt_ms = rtt_ms;
      }),
      record s { rtt_cache = cache },
    )

-- devices::health::handler: the clock in seconds, the clock of the cache before and after the probe,
-- and what the probe answers if it is asked
unfoldable pub health : User → ℕ → ℕ → ℕ → Option ℕ → ℕ → Exec AppState DeviceHealth
unfolding Devices.get_in_org Orgs.get probe_into
health caller id now_secs now probed later = do
  device ← on_db (Devices.get_in_org caller.org_id id)
  on_db (Orgs.get caller.org_id)
  probe_into caller device now_secs now probed later
