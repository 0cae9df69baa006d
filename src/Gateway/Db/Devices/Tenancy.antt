-- ===== src/Gateway/Db/Devices/Tenancy.antt =====
-- The lookups and the deletion of db/devices.rs within an organisation.
use codeless_workspace.Base.{
  ℕ, ◌≡◌, refl, true, false, ◌&&◌, Option, none, some, List, [], ◌∷◌, arith, ◌==◌, All, is_some,
  find_row, find_row-none, find_row_sound, find_none_of,
}
use codeless_workspace.Gateway.Error.{ok, err, not_found}
use codeless_workspace.Gateway.Exec.{or_raise-ok, or_raise-state}
use codeless_workspace.Gateway.Schema.{Database, Device}
use codeless_workspace.Gateway.Schema.Deletes.{doomed}
use codeless_workspace.Gateway.Schema.Cascade.{
  IsUnreferenced, delete_devices_none, delete_devices-IsUnreferenced,
}
use codeless_workspace.Gateway.Db.Devices.{in_org, get_in_org, delete_in_org}

in_org_sound :
    (org_id id : ℕ) (d : Device) → in_org org_id id d ≡ true → (d.id ≡ id) × (d.org_id ≡ org_id)
in_org_sound org_id id d h = ground arith

-- A device that an org gets by an id has that id and that org, and the read changes nothing.
pub get_in_org_sound :
    (org_id id : ℕ) (s : Database) (d : Device)
    → (get_in_org org_id id s).0 ≡ ok d
    → (d.id ≡ id) × (d.org_id ≡ org_id) × ((get_in_org org_id id s).1 ≡ s)
unfolding get_in_org
get_in_org_sound org_id id s d h =
    let (i, o) = in_org_sound org_id id d (
      find_row_sound (in_org org_id id) s.devices d
        (or_raise-ok (find_row (in_org org_id id) s.devices) not_found s h)) in
    (i, o, or_raise-state (find_row (in_org org_id id) s.devices) not_found s)

-- To get a device of another org is the same as to get one that does not exist: the answer is
-- `NotFound` in both cases, by an id for which the org has no device.
pub get_in_org_foreign :
    (org_id id : ℕ) (s : Database)
    → All (λ (d : Device). in_org org_id id d ≡ false) s.devices
    → get_in_org org_id id s ≡ (err not_found, s)
unfolding get_in_org
get_in_org_foreign org_id id s h = rw (find_none_of (in_org org_id id) s.devices h)

-- A deletion by an org that does not own the device says so and changes no table.
pub delete_in_org_foreign :
    (org_id id : ℕ) (s : Database)
    → (delete_in_org org_id id s).0 ≡ ok false
    → (delete_in_org org_id id s).1 ≡ s
unfolding delete_in_org
delete_in_org_foreign org_id id s h =
    delete_devices_none (in_org org_id id) s (
      find_row-none (in_org org_id id) s.devices
        (none_of (find_row (in_org org_id id) s.devices) h))
  where
    none_of : (o : Option Device) → ok (is_some o) ≡ ok false → o ≡ none
    none_of none e = refl
    none_of (some d) e = cc

pub owner_doomed :
    (org_id id : ℕ) (ds : List Device)
    → is_some (find_row (in_org org_id id) ds) ≡ true
    → is_some (find_row (λ (d : Device). d.id == id && in_org org_id id d) ds) ≡ true
unfolding find_row
owner_doomed org_id id [] h = cc
owner_doomed org_id id (d ∷ ds) h = ground (arith, owner_doomed org_id id ds)

-- A deletion that says that it deleted the device leaves no tunnel, event, log, command or audit
-- entry that refers to the device's id.
pub delete_in_org-IsUnreferenced :
    (org_id id : ℕ) (s : Database)
    → (delete_in_org org_id id s).0 ≡ ok true
    → IsUnreferenced (delete_in_org org_id id s).1 id
unfolding delete_in_org
delete_in_org-IsUnreferenced org_id id s h =
    delete_devices-IsUnreferenced (in_org org_id id) s id
      (unfold doomed in owner_doomed org_id id s.devices (ground arith))
