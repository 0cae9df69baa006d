-- ===== src/Gateway/Db/Devices.antt =====
-- hackline/crates/hackline-gateway/src/db/devices.rs
pub mod Tenancy
pub mod Seen
use codeless_workspace.Base.{
  ℕ, zero, suc, ◌+◌, ◌-◌, ◌*◌, ◌/◌, ◌%◌, ◌^◌, ◌≤◌, ◌<◌, min, max, String, ◌≡◌, refl, sym, ap, ◌∙◌,
  ◌≢◌, ◌↔◌, ◌⊎◌, inl, inr, Bool, true, false, not, ◌&&◌, ◌||◌, Option, none, some, List, [], ◌∷◌,
  ◌++◌, map, reverse, arith, ltb, leb, ◌==◌, if◌then◌else◌, Bool-cases, Option-cases, Text, codes,
  ◌=t◌, =t_iff, =t_refl, =t_sound, All, length, true-ne-false, is_some, is_none, unwrap_or, ◌>>=?◌,
  find_row, select, update_rows,
}
use codeless_workspace.Gateway.Error.{Result, ok, err, not_found}
use codeless_workspace.Gateway.Exec.{Exec, gets, or_raise, modify, pure, ◌>>=◌, ◌>>◌}
use codeless_workspace.Gateway.Schema.{Database, Org, Device}
use codeless_workspace.Gateway.Schema.Inserts.{insert_device}
use codeless_workspace.Gateway.Schema.Deletes.{delete_devices}

abbrev pub in_org : ℕ → ℕ → Device → Bool
in_org org_id id d = d.id == id && d.org_id == org_id

unfoldable pub get_in_org : ℕ → ℕ → Exec Database Device
unfolding find_row
get_in_org org_id id s = or_raise (find_row (in_org org_id id) s.devices) not_found s

unfoldable pub insert : ℕ → Text → Text → ℕ → Exec Database Device
unfolding insert_device get_in_org
insert org_id zid label epoch = do
  id ← insert_device org_id zid label epoch none
  get_in_org org_id id

unfoldable pub list_in_org : ℕ → Exec Database (List Device)
unfolding select
list_in_org org_id = gets λ s. select (λ (d : Device). d.org_id == org_id) s.devices

unfoldable pub delete_in_org : ℕ → ℕ → Exec Database Bool
unfolding delete_devices find_row
delete_in_org org_id id s =
    (ok (is_some (find_row (in_org org_id id) s.devices)), delete_devices (in_org org_id id) s)

-- devices JOIN orgs
unfoldable pub with_org_slug : Database → Device → Option (Device × Text)
unfolding find_row
with_org_slug s d = find_row (λ (o : Org). o.id == d.org_id) s.orgs >>=? λ o. some (d, o.slug)

unfoldable pub get_with_org_slug : ℕ → Exec Database (Device × Text)
unfolding find_row with_org_slug
get_with_org_slug id s =
    or_raise (find_row (λ (d : Device). d.id == id) s.devices >>=? with_org_slug s) not_found s

unfoldable pub get_unscoped : ℕ → Exec Database Device
unfolding find_row
get_unscoped id s = or_raise (find_row (λ (d : Device). d.id == id) s.devices) not_found s

unfoldable pub get_by_zid : Text → Exec Database (Option (ℕ × ℕ))
unfolding find_row ◌=t◌
get_by_zid zid =
    gets λ s. find_row (λ (d : Device). d.zid =t zid) s.devices >>=? λ d. some (d.id, d.org_id)

unfoldable pub zid_in_org : ℕ → Text → Device → Bool
unfolding ◌=t◌
zid_in_org org_id zid d = d.org_id == org_id && d.zid =t zid

unfoldable pub set_last_seen : (Device → Bool) → Option ℕ → Database → Database
unfolding update_rows
set_last_seen p at s = record s {
  devices = update_rows p (λ d. record d { last_seen_at = at }) s.devices;
}

upsert : Option Device → ℕ → Text → ℕ → Exec Database (ℕ × Bool)
unfolding set_last_seen insert_device
upsert (some d) org_id zid epoch = do
  modify (set_last_seen (λ e. e.id == d.id) (some epoch))
  pure (d.id, false)
upsert none org_id zid epoch = do
  id ← insert_device org_id zid zid epoch (some epoch)
  pure (id, true)

unfoldable pub upsert_seen : ℕ → Text → ℕ → Exec Database (ℕ × Bool)
unfolding zid_in_org find_row upsert
upsert_seen org_id zid epoch = do
  existing ← gets λ s. find_row (zid_in_org org_id zid) s.devices
  upsert existing org_id zid epoch

unfoldable pub touch_last_seen : ℕ → ℕ → Exec Database (Unit {0})
unfolding set_last_seen
touch_last_seen id epoch = modify (set_last_seen (λ d. d.id == id) (some epoch))

unfoldable pub mark_offline : ℕ → Text → Exec Database (Unit {0})
unfolding set_last_seen zid_in_org
mark_offline org_id zid = modify (set_last_seen (zid_in_org org_id zid) none)
