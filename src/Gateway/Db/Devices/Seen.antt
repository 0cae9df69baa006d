-- ===== src/Gateway/Db/Devices/Seen.antt =====
-- The registration of devices by what the liveliness watcher sees.
use codeless_workspace.Base.{
  ℕ, ◌≡◌, refl, ap, ◌∙◌, true, false, ◌&&◌, Option, none, some, [], ◌∷◌, ◌++◌, arith, ◌==◌, Text,
  ◌=t◌, =t_refl, All, length, find_row, find-update, find-append, find_row-none, fresh_rowid,
  All-map, find_none_of, length-update,
}
use codeless_workspace.Gateway.Error.{ok, err, db, unique}
use codeless_workspace.Gateway.Schema.{Database, Device, has_org}
use codeless_workspace.Gateway.Schema.Inserts.{insert_device}
use codeless_workspace.Gateway.Db.Devices.{upsert_seen, upsert, zid_in_org, set_last_seen}

-- The device of the org with the id, as it is after the sample.
abbrev pub seen : ℕ → Text → Database → Option Device
seen org_id zid s = find_row (zid_in_org org_id zid) s.devices

-- A device that the org has is touched, not made: the answer is its id, the table has as many rows,
-- and its row is as before with the new time.
pub upsert_seen_known :
    (org_id : ℕ) (zid : Text) (epoch : ℕ) (s : Database) (d : Device)
    → seen org_id zid s ≡ some d
    → ((upsert_seen org_id zid epoch s).0 ≡ ok (d.id, false))
      × (length (upsert_seen org_id zid epoch s).1.devices ≡ length s.devices)
      × (seen org_id zid (upsert_seen org_id zid epoch s).1
          ≡ some (record d { last_seen_at = some epoch }))
unfolding upsert_seen set_last_seen
upsert_seen_known org_id zid epoch s d h = (
  rw h,
  rw h (length-update (λ e. e.id == d.id) (λ e. record e { last_seen_at = some epoch }) s.devices),
  ap (λ o. find_row (zid_in_org org_id zid) (upsert o org_id zid epoch s).1.devices) h
      ∙ find-update (zid_in_org org_id zid) (λ e. e.id == d.id)
          (λ e. record e { last_seen_at = some epoch }) (λ e. refl) s.devices
      ∙ ground (arith, h),
)

new_device : ℕ → Text → ℕ → Database → Device
new_device org_id zid epoch s = record {
  id = fresh_rowid (λ (d : Device). d.id) s.devices;
  org_id = org_id;
  zid = zid;
  label = zid;
  customer_id = none;
  created_at = epoch;
  last_seen_at = some epoch;
}

unseen :
    (org_id : ℕ) (zid : Text) (s : Database)
    → find_row (λ (d : Device). d.zid =t zid) s.devices ≡ none
    → All (λ d. zid_in_org org_id zid d ≡ false) s.devices
unfolding zid_in_org
unseen org_id zid s h =
    All-map (λ (d : Device). (d.zid =t zid) ≡ false)
      (λ (d : Device). (d.org_id == org_id && d.zid =t zid) ≡ false) (λ d e. ground arith) s.devices
      (find_row-none _ s.devices h)

registered :
    (org_id : ℕ) (zid : Text) (epoch : ℕ) (s : Database)
    → has_org s org_id ≡ true
    → find_row (λ (d : Device). d.zid =t zid) s.devices ≡ none
    → upsert_seen org_id zid epoch s ≡ (
      ok (fresh_rowid (λ (d : Device). d.id) s.devices, true),
      record s { devices = s.devices ++ new_device org_id zid epoch s ∷ [] },
    )
unfolding upsert_seen insert_device new_device
registered org_id zid epoch s o h =
    rw (find_none_of (zid_in_org org_id zid) s.devices (unseen org_id zid s h), h, o)

own :
    (org_id : ℕ) (zid : Text) (epoch : ℕ) (s : Database)
    → zid_in_org org_id zid (new_device org_id zid epoch s) ≡ true
unfolding zid_in_org new_device
own org_id zid epoch s = ground (arith, =t_refl zid)

-- A device that no org has is made in an org that exists, once: the answer says that it was made,
-- the org has it afterwards, and a second sample finds it under the same id.
pub upsert_seen_new :
    (org_id : ℕ) (zid : Text) (epoch later : ℕ) (s : Database)
    → has_org s org_id ≡ true
    → find_row (λ (d : Device). d.zid =t zid) s.devices ≡ none
    → (d : Device) × ((upsert_seen org_id zid epoch s).0 ≡ ok (d.id, true))
      × (seen org_id zid (upsert_seen org_id zid epoch s).1 ≡ some d)
      × ((upsert_seen org_id zid later (upsert_seen org_id zid epoch s).1).0 ≡ ok (d.id, false))
upsert_seen_new org_id zid epoch later s o h =
    let e = registered org_id zid epoch s o h in
    let there : find_row (zid_in_org org_id zid) (s.devices ++ new_device org_id zid epoch s ∷ [])
        ≡ some (new_device org_id zid epoch s) =
      find-append (zid_in_org org_id zid) s.devices (new_device org_id zid epoch s)
        (own org_id zid epoch s) (unseen org_id zid s h) in
    (
      new_device org_id zid epoch s,
      rw e (unfold new_device in refl),
      rw e there,
      rw e (
          (upsert_seen_known org_id zid later
            (record s { devices = s.devices ++ new_device org_id zid epoch s ∷ [] })
            (new_device org_id zid epoch s) there).0),
    )

-- An id that another org has cannot be registered: `zid` is unique over all orgs, and the sample
-- fails and changes nothing.
pub upsert_seen_foreign :
    (org_id : ℕ) (zid : Text) (epoch : ℕ) (s : Database) (d : Device)
    → find_row (λ (e : Device). e.zid =t zid) s.devices ≡ some d
    → seen org_id zid s ≡ none
    → upsert_seen org_id zid epoch s ≡ (err (db unique), s)
unfolding upsert_seen insert_device
upsert_seen_foreign org_id zid epoch s d h k = rw (k, h)
