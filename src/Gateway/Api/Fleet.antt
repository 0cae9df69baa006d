-- ===== src/Gateway/Api/Fleet.antt =====
-- hackline/crates/hackline-gateway/src/api/devices/list_health.rs
pub mod Entries
use codeless_workspace.Base.{
  ℕ, zero, suc, ◌+◌, ◌-◌, ◌*◌, ◌/◌, ◌%◌, ◌^◌, ◌≤◌, ◌<◌, min, max, String, ◌≡◌, refl, sym, ap, ◌∙◌,
  ◌≢◌, ◌↔◌, ◌⊎◌, inl, inr, Bool, true, false, not, ◌&&◌, ◌||◌, Option, none, some, List, [], ◌∷◌,
  ◌++◌, map, reverse, arith, ltb, leb, ◌==◌, if◌then◌else◌, Bool-cases, Option-cases, Text, codes,
  ◌=t◌, =t_iff, =t_refl, =t_sound, All, length, true-ne-false, is_some, is_none, unwrap_or, ◌>>=?◌,
}
use codeless_workspace.Gateway.Error.{ok}
use codeless_workspace.Gateway.Exec.{Exec, ◌>>=◌, ◌>>◌}
use codeless_workspace.Gateway.RttCache.{cached_rtt_ms, online_from_last_seen, RttCache}
use codeless_workspace.Gateway.Schema.{Device, User}
use codeless_workspace.Gateway.State.{AppState, on_db}
use codeless_workspace.Gateway.Db.Devices
use codeless_workspace.Gateway.Db.Orgs

pub record DeviceHealthEntry : Type 0 where
  pub device_id : ℕ
  pub online : Bool
  pub last_seen_at : Option ℕ
  pub rtt_ms : Option ℕ

-- The probes run at once; here the cache sees them in the order of the devices. Of each device: the
-- cache's clock before and after its probe, and what its probe answers if it is asked.
pub record Probes : Type 0 where
  pub before : ℕ → ℕ
  pub later : ℕ → ℕ
  pub rtt : ℕ → Option ℕ

module _ (probes : Probes) (org_id now : ℕ) where
  unfoldable pub probe_all : List Device → RttCache → List DeviceHealthEntry × RttCache
  unfolding cached_rtt_ms online_from_last_seen
  probe_all [] cache = ([], cache)
  probe_all (d ∷ ds) cache =
      let (rtt_ms, cache) =
        cached_rtt_ms cache (org_id, d.id) (probes.before d.id) (probes.rtt d.id)
          (probes.later d.id) in
      let (items, cache) = probe_all ds cache in
      (
        record {
          device_id = d.id;
          online = online_from_last_seen d.last_seen_at now;
          last_seen_at = d.last_seen_at;
          rtt_ms = rtt_ms;
        }
            ∷ items,
        cache,
      )

  probe_into : List Device → Exec AppState (List DeviceHealthEntry)
  unfolding probe_all
  probe_into ds s =
      let (items, cache) = probe_all ds s.rtt_cache in (ok items, record s { rtt_cache = cache })

-- devices::list_health::handler
unfoldable pub handler : Probes → User → ℕ → Exec AppState (List DeviceHealthEntry)
unfolding Devices.list_in_org Orgs.get probe_into
handler probes caller now = do
  ds ← on_db (Devices.list_in_org caller.org_id)
  on_db (Orgs.get caller.org_id)
  probe_into probes caller.org_id now ds
