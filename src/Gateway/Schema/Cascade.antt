-- ===== src/Gateway/Schema/Cascade.antt =====
-- What a deletion does to the tables that refer to the deleted rows.
use codeless_workspace.Base.{
  ℕ, ◌≡◌, refl, sym, ap, ◌≢◌, inl, inr, Bool, true, false, ◌&&◌, Option, none, some, List, [], ◌∷◌,
  arith, ◌==◌, Bool-cases, All, true-ne-false, is_some, find_row, update_rows, delete_none,
  update_none, delete-gone, All-of_all, All-map, ==_iff, some_inj, subst,
}
use codeless_workspace.Gateway.Schema.{
  Database, Device, Tunnel, UserRow, MessageRow, OutboxRow, AuditEntry,
}
use codeless_workspace.Gateway.Schema.Deletes.{
  refers, doomed, forget_tunnels, forget_devices, forget_users, delete_tunnels, delete_devices,
  delete_users,
}

-- A test that nothing passes finds nothing.
find_nothing :
    {A : Type 0} (q p : A → Bool) (xs : List A)
    → All (λ x. p x ≡ false) xs
    → find_row (λ x. q x && p x) xs ≡ none
unfolding find_row
find_nothing q p [] h = refl
find_nothing q p (x ∷ xs) h = ground (arith, find_nothing q p xs h.1)

module _ (gone : ℕ → Bool) (h : (id : ℕ) → gone id ≡ false) where
  refers_none : (o : Option ℕ) → refers gone o ≡ false
  unfolding refers
  refers_none none = refl
  refers_none (some id) = h id

  forget_tunnels_none : (rows : List AuditEntry) → forget_tunnels gone rows ≡ rows
  unfolding forget_tunnels
  forget_tunnels_none rows = update_none _ _ rows (All-of_all _ (λ a. refers_none a.tunnel_id) rows)

  forget_devices_none : (rows : List AuditEntry) → forget_devices gone rows ≡ rows
  unfolding forget_devices
  forget_devices_none rows = update_none _ _ rows (All-of_all _ (λ a. refers_none a.device_id) rows)

  forget_users_none : (rows : List AuditEntry) → forget_users gone rows ≡ rows
  unfolding forget_users
  forget_users_none rows = update_none _ _ rows (All-of_all _ (λ a. refers_none a.user_id) rows)

-- A deletion whose test no row passes changes nothing in any table.
pub delete_tunnels_none :
    (p : Tunnel → Bool) (s : Database) → All (λ t. p t ≡ false) s.tunnels → delete_tunnels p s ≡ s
unfolding delete_tunnels
delete_tunnels_none p s h = rw (
  delete_none p s.tunnels h,
  forget_tunnels_none _ (λ id. ap is_some (find_nothing (λ t. t.id == id) p s.tunnels h)) s.audit,
)

pub delete_users_none :
    (p : UserRow → Bool) (s : Database) → All (λ u. p u ≡ false) s.users → delete_users p s ≡ s
unfolding delete_users
delete_users_none p s h = rw (
  delete_none p s.users h,
  forget_users_none _ (λ id. ap is_some (find_nothing (λ u. u.user.id == id) p s.users h)) s.audit,
)

nobody_doomed :
    (p : Device → Bool) (s : Database)
    → All (λ d. p d ≡ false) s.devices
    → (id : ℕ) → doomed p s id ≡ false
unfolding doomed
nobody_doomed p s h id = ap is_some (find_nothing (λ d. d.id == id) p s.devices h)

pub delete_devices_none :
    (p : Device → Bool) (s : Database) → All (λ d. p d ≡ false) s.devices → delete_devices p s ≡ s
unfolding delete_devices
delete_devices_none p s h =
    let no = nobody_doomed p s h in
    rw (
      delete_tunnels_none (λ t. doomed p s t.device_id) s
          (All-of_all _ (λ t. no t.device_id) s.tunnels),
      delete_none p s.devices h,
      delete_none (λ (e : MessageRow). doomed p s e.device_id) s.events
          (All-of_all _ (λ e. no e.device_id) s.events),
      delete_none (λ (e : MessageRow). doomed p s e.device_id) s.logs
          (All-of_all _ (λ e. no e.device_id) s.logs),
      delete_none (λ (r : OutboxRow). doomed p s r.device_id) s.cmd_outbox
          (All-of_all _ (λ r. no r.device_id) s.cmd_outbox),
      forget_devices_none (doomed p s) no s.audit,
    )

-- Nothing in any table refers to the device.
pub record IsUnreferenced (s : Database) (id : ℕ) : Type 0 where
  pub no_tunnel : All (λ (t : Tunnel). (t.device_id == id) ≡ false) s.tunnels
  pub no_event : All (λ (e : MessageRow). (e.device_id == id) ≡ false) s.events
  pub no_log : All (λ (e : MessageRow). (e.device_id == id) ≡ false) s.logs
  pub no_cmd : All (λ (r : OutboxRow). (r.device_id == id) ≡ false) s.cmd_outbox
  pub no_audit : All (λ (a : AuditEntry). a.device_id ≢ some id) s.audit

spared :
    (p : Device → Bool) (s : Database) (id k : ℕ)
    → doomed p s id ≡ true
    → doomed p s k ≡ false
    → (k == id) ≡ false
spared p s id k h e = elim (Bool-cases (k == id)) [
  | inl same ↦ absurd (true-ne-false h (rw ((==_iff k id).0 same) at e))
  | inr other ↦ other
]

not_gone :
    (gone : ℕ → Bool) (id : ℕ) (o : Option ℕ) → gone id ≡ true → refers gone o ≡ false → o ≢ some id
unfolding refers
not_gone gone id none h e q = cc
not_gone gone id (some k) h e q = true-ne-false (subst (λ j. gone j ≡ true) (sym (some_inj q)) h) e

forgotten :
    (gone : ℕ → Bool) (id : ℕ)
    → gone id ≡ true
    → (rows : List AuditEntry)
    → All (λ (a : AuditEntry). a.device_id ≢ some id) (forget_devices gone rows)
unfolding forget_devices update_rows refers
forgotten gone id h [] = tt
forgotten gone id h (a ∷ rows) = elim (Bool-cases (refers gone a.device_id)) [
  | inl e ↦ rw e (λ q. cc, forgotten gone id h rows)
  | inr e ↦ rw e (not_gone gone id a.device_id h e, forgotten gone id h rows)
]

-- A deleted device is referred to by no row of any table.
pub delete_devices-IsUnreferenced :
    (p : Device → Bool) (s : Database) (id : ℕ)
    → doomed p s id ≡ true
    → IsUnreferenced (delete_devices p s) id
unfolding delete_devices delete_tunnels
delete_devices-IsUnreferenced p s id h = record {
  no_tunnel =
      All-map _ _ (λ t e. spared p s id t.device_id h e) _
        (delete-gone (λ (t : Tunnel). doomed p s t.device_id) s.tunnels);
  no_event =
      All-map _ _ (λ t e. spared p s id t.device_id h e) _
        (delete-gone (λ (t : MessageRow). doomed p s t.device_id) s.events);
  no_log =
      All-map _ _ (λ t e. spared p s id t.device_id h e) _
        (delete-gone (λ (t : MessageRow). doomed p s t.device_id) s.logs);
  no_cmd =
      All-map _ _ (λ t e. spared p s id t.device_id h e) _
        (delete-gone (λ (t : OutboxRow). doomed p s t.device_id) s.cmd_outbox);
  no_audit = forgotten (doomed p s) id h _;
}
