-- ===== src/Gateway/Api/Fleet/Entries.antt =====
-- Which devices the health of a fleet lists.
use codeless_workspace.Base.{
  ℕ, ◌≡◌, refl, sym, ◌∙◌, ◌≢◌, inl, inr, List, [], ◌∷◌, ◌==◌, Option-cases, select, find_row, subst,
}
use codeless_workspace.Gateway.Api.Fleet.{Probes, probe_all, handler, DeviceHealthEntry}
use codeless_workspace.Gateway.Error.{ok, Result, not_found}
use codeless_workspace.Gateway.Exec.Steps.{ok_inj}
use codeless_workspace.Gateway.RttCache.{RttCache, online_from_last_seen}
use codeless_workspace.Gateway.Schema.{Device, User, Org}
use codeless_workspace.Gateway.State.{AppState}
use codeless_workspace.Gateway.Db.Orgs
use codeless_workspace.Gateway.Db.Devices

module _ (probes : Probes) (org_id now : ℕ) where
  -- One entry for each device, in the same order, with what is stored of it.
  pub data Lists : List Device → List DeviceHealthEntry → Type 0 where
    none_left : Lists [] []
    entry :
        {d : Device} {ds : List Device} {e : DeviceHealthEntry} {es : List DeviceHealthEntry}
        → e.device_id ≡ d.id
        → e.online ≡ online_from_last_seen d.last_seen_at now
        → e.last_seen_at ≡ d.last_seen_at
        → Lists ds es
        → Lists (d ∷ ds) (e ∷ es)

  probe_all-Lists :
      (ds : List Device) (cache : RttCache) → Lists ds (probe_all probes org_id now ds cache).0
  unfolding probe_all
  probe_all-Lists [] cache = none_left
  probe_all-Lists (d ∷ ds) cache = entry refl refl refl (probe_all-Lists ds _)

not_found-ok : {A : Type 0} {a : A} → Result.err not_found ≢ ok a
not_found-ok e = cc

-- The health of the fleet has one entry for each device of the caller's organisation, in the order of
-- the device list, with the times stored and the online flag they give, whatever the probes answer;
-- no other device appears, and the database does not change.
pub handler-Lists :
    (probes : Probes) (caller : User) (now : ℕ) (s : AppState) (items : List DeviceHealthEntry)
    → (handler probes caller now s).0 ≡ ok items
    → Lists probes caller.org_id now
        (select (λ (d : Device). d.org_id == caller.org_id) s.database.devices)
        items
      × ((handler probes caller now s).1.database ≡ s.database)
unfolding handler Devices.list_in_org Orgs.get
handler-Lists probes caller now s items h =
    elim (Option-cases (find_row (λ (o : Org). o.id == caller.org_id) s.database.orgs)) [
      | inl lost ↦ absurd (not_found-ok (sym (rw lost refl) ∙ h))
      | inr (o, home) ↦ (
        subst
            (Lists probes caller.org_id now
              (select (λ (d : Device). d.org_id == caller.org_id) s.database.devices))
            (ok_inj (sym (rw home refl) ∙ h))
            (probe_all-Lists probes caller.org_id now
              (select (λ (d : Device). d.org_id == caller.org_id) s.database.devices) s.rtt_cache),
        rw home refl,
      )
    ]
