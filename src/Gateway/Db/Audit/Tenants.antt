-- ===== src/Gateway/Db/Audit/Tenants.antt =====
-- Which entries of the audit an organisation sees.
use codeless_workspace.Gateway.Db.Devices.Tenancy.{owner_doomed}
use codeless_workspace.Gateway.Exec.Steps.{ok_inj}
use codeless_workspace.Base.{
  ℕ, ◌≡◌, refl, ap, ◌∙◌, inl, inr, Bool, true, false, ◌&&◌, Option, none, some, List, reverse, ◌==◌,
  if◌then◌else◌, Bool-cases, All, is_some, ◌>>=?◌, find_row, find-update, All-map, All-take,
  All-reverse, select_sound, ℤ, pos, subst, negsuc, select,
}
use codeless_workspace.Gateway.Error.{ok}
use codeless_workspace.Gateway.Schema.{Database, Device, AuditEntry, UserRow, Tunnel}
use codeless_workspace.Gateway.Schema.Deletes.{
  delete_devices, delete_tunnels, forget_devices, forget_tunnels, refers, doomed,
}
use codeless_workspace.Gateway.Db.Audit.{visible, null_or, list_recent, sql_limit}
use codeless_workspace.Gateway.Db.Devices.{in_org, delete_in_org}

-- the entry of that id
abbrev pub entry_of : Database → ℕ → Option AuditEntry
entry_of s id = find_row (λ (a : AuditEntry). a.id == id) s.audit

-- The device and the user that an entry names are the organisation's.
pub record IsOwn (s : Database) (org_id : ℕ) (a : AuditEntry) : Type 0 where
  pub device :
      (id : ℕ)
      → a.device_id ≡ some id
      → is_some (find_row (λ (d : Device). d.id == id && d.org_id == org_id) s.devices) ≡ true
  pub user :
      (id : ℕ)
      → a.user_id ≡ some id
      → is_some (find_row (λ (u : UserRow). u.user.id == id && u.user.org_id == org_id) s.users)
        ≡ true

named : (p : ℕ → Bool) (o : Option ℕ) (id : ℕ) → null_or p o ≡ true → o ≡ some id → p id ≡ true
unfolding null_or
named p o id h e = rw e at h

both : (a b : Bool) → (a && b) ≡ true → (a ≡ true) × (b ≡ true)
both true true h = (refl, refl)
both true false h = cc
both false b h = cc

visible-IsOwn :
    (s : Database) (org_id : ℕ) (a : AuditEntry) → visible s org_id a ≡ true → IsOwn s org_id a
unfolding visible
visible-IsOwn s org_id a h =
    let (d, u) =
      both
        (null_or
          (λ id. is_some (find_row (λ (d : Device). d.id == id && d.org_id == org_id) s.devices))
          a.device_id)
        (null_or
          (λ id.
            is_some
              (find_row (λ (u : UserRow). u.user.id == id && u.user.org_id == org_id) s.users))
          a.user_id)
        h in
    record {
      device = λ id e.
          named
            (λ id. is_some (find_row (λ (d : Device). d.id == id && d.org_id == org_id) s.devices))
            a.device_id id d e;
      user = λ id e.
          named
            (λ id.
              is_some
                (find_row (λ (u : UserRow). u.user.id == id && u.user.org_id == org_id) s.users))
            a.user_id id u e;
    }

sql_limit-All :
    (P : AuditEntry → Type 0) (limit : ℤ) (xs : List AuditEntry)
    → All P xs
    → All P (sql_limit limit xs)
sql_limit-All P (pos n) xs h = All-take P n xs h
sql_limit-All P (negsuc n) xs h = h

-- Every entry that an organisation lists names no device and no user of another organisation.
pub list_recent-IsOwn :
    (org_id : ℕ) (limit : ℤ) (s : Database) (rows : List AuditEntry)
    → (list_recent org_id limit s).0 ≡ ok rows
    → All (IsOwn s org_id) rows
unfolding list_recent
list_recent-IsOwn org_id limit s rows h = subst (All (IsOwn s org_id)) (ok_inj h) (
    sql_limit-All (IsOwn s org_id) limit (reverse (select (visible s org_id) s.audit)) (
      All-reverse (IsOwn s org_id) (select (visible s org_id) s.audit) (
        All-map (λ a. visible s org_id a ≡ true) (IsOwn s org_id) (visible-IsOwn s org_id)
          (select (visible s org_id) s.audit) (select_sound (visible s org_id) s.audit))))

module _ (s : Database) (owner id : ℕ) (a : AuditEntry) (d : Device) where
  dies : ℕ → Bool
  dies tid =
      is_some
        (find_row (λ (t : Tunnel). t.id == tid && doomed (in_org owner id) s t.device_id) s.tunnels)

  -- the entry, without a tunnel that goes with the device
  untunnelled : AuditEntry
  untunnelled = if refers dies a.tunnel_id then record a { tunnel_id = none } else a

  untunnelled_found :
      entry_of s a.id ≡ some a
      → find_row (λ (e : AuditEntry). e.id == a.id) (forget_tunnels dies s.audit) ≡ some untunnelled
  unfolding forget_tunnels untunnelled dies
  untunnelled_found there =
      find-update (λ (e : AuditEntry). e.id == a.id) (λ (e : AuditEntry). refers dies e.tunnel_id)
        (λ e. record e { tunnel_id = none }) (λ e. refl) s.audit
      ∙ ap
          (λ (o : Option AuditEntry).
            o >>=? λ e. some (if refers dies e.tunnel_id then record e { tunnel_id = none } else e))
          there

  -- what the entry shares with the one before
  same_rest :
      (untunnelled.device_id ≡ a.device_id)
      × (untunnelled.user_id ≡ a.user_id)
      × (untunnelled.peer ≡ a.peer)
      × (untunnelled.request_id ≡ a.request_id)
  unfolding untunnelled
  same_rest = elim (Bool-cases (refers dies a.tunnel_id)) [
    | inl e ↦ rw e (refl, refl, refl, refl)
    | inr e ↦ rw e (refl, refl, refl, refl)
  ]

  is_doomed : find_row (in_org owner id) s.devices ≡ some d → doomed (in_org owner id) s id ≡ true
  unfolding doomed
  is_doomed own = owner_doomed owner id s.devices (ap is_some own)

  refers-doomed :
      (o : Option ℕ)
      → o ≡ some id
      → doomed (in_org owner id) s id ≡ true
      → refers (doomed (in_org owner id) s) o ≡ true
  unfolding refers
  refers-doomed o e h = rw e h

  -- Once a device is deleted, an entry of it that names no user, as every tunnel session does, names
  -- no device either, and is visible to every organisation.
  pub delete_in_org_exposes :
      (other : ℕ)
      → find_row (in_org owner id) s.devices ≡ some d
      → entry_of s a.id ≡ some a
      → a.device_id ≡ some id
      → a.user_id ≡ none
      → (b : AuditEntry) × (entry_of (delete_in_org owner id s).1 a.id ≡ some b)
        × (b.device_id ≡ none)
        × (b.peer ≡ a.peer)
        × (b.request_id ≡ a.request_id)
        × (visible (delete_in_org owner id s).1 other b ≡ true)
  unfolding delete_in_org delete_devices delete_tunnels forget_devices visible null_or dies
  delete_in_org_exposes other own there of anyone =
      let (dev, usr, peer, request) = same_rest in
      (
        record untunnelled { device_id = none },
        find-update (λ (e : AuditEntry). e.id == a.id)
              (λ (e : AuditEntry). refers (doomed (in_org owner id) s) e.device_id)
              (λ e. record e { device_id = none }) (λ e. refl) (forget_tunnels dies s.audit)
            ∙ ap
                (λ (o : Option AuditEntry). o >>=? λ e. some (
                  if refers (doomed (in_org owner id) s) e.device_id
                  then record e { device_id = none }
                  else e))
                (untunnelled_found there)
            ∙ ap (λ b. some (if b then record untunnelled { device_id = none } else untunnelled))
                (refers-doomed untunnelled.device_id (dev ∙ of) (is_doomed own)),
        refl,
        peer,
        request,
        rw (usr, anyone) refl,
      )
