-- ===== src/Gateway/Auth/Scope.antt =====
-- hackline/crates/hackline-gateway/src/auth/scope.rs
use codeless_workspace.Base.{
  ℕ, ◌≡◌, refl, ◌↔◌, ◌⊎◌, inl, inr, Bool, true, false, ◌||◌, Option, none, some, List, [], ◌∷◌,
  arith, ◌==◌, if◌then◌else◌, Bool-cases, Text, codes, ◌=t◌, =t_sound, ℤ, pos, sym, ==_refl, ap,
  negsuc, ◌∙◌,
}
use codeless_workspace.Gateway.Json.{Json}
use codeless_workspace.Gateway.Schema.{User}
use codeless_workspace.Gateway.Error.{
  Result, ok, err, config, unauthorized, scope_json, scope_shape, device_not_authorised,
  unknown_role,
}

-- `v.as_i64() == Some(device_id)`
unfoldable pub names_device : ℕ → Option ℤ → Bool
names_device device_id (some (pos n)) = n == device_id
names_device device_id _ = false

-- The roles of the first arm.
unfoldable pub sees_all : Text → Bool
unfolding ◌=t◌
sees_all role =
    role =t codes "owner"
    || role =t codes "admin"
    || role =t codes "support"
    || role =t codes "viewer"

names_device-some :
    (device_id : ℕ) (o : Option ℤ) → names_device device_id o ≡ true → o ≡ some (pos device_id)
unfolding names_device
names_device-some device_id (some (pos n)) h =
    let e : n ≡ device_id = ground arith in ap (λ k. some (pos k)) e
names_device-some device_id (some (negsuc n)) h = cc
names_device-some device_id none h = cc

-- One of the roles that see every device.
abbrev pub IsStaff : Text → Type 0
IsStaff role =
    (role ≡ codes "owner")
    ⊎ (role ≡ codes "admin")
    ⊎ (role ≡ codes "support")
    ⊎ (role ≡ codes "viewer")

-- The arm that a chain of tests took.
one_of :
    (a b c d : Bool) → (a || b || c || d) ≡ true → (a ≡ true) ⊎ (b ≡ true) ⊎ (c ≡ true) ⊎ (d ≡ true)
one_of a b c d h = ground (arith, h)

sees_all-IsStaff : (role : Text) → sees_all role ≡ true → IsStaff role
unfolding sees_all
sees_all-IsStaff role h =
    elim (one_of (role =t codes "owner") (role =t codes "admin") (role =t codes "support")
      (role =t codes "viewer") h) [
        | inl e ↦ inl (=t_sound role (codes "owner") e)
        | inr (inl e) ↦ inr (inl (=t_sound role (codes "admin") e))
        | inr (inr (inl e)) ↦ inr (inr (inl (=t_sound role (codes "support") e)))
        | inr (inr (inr e)) ↦ inr (inr (inr (=t_sound role (codes "viewer") e)))
      ]

IsStaff-sees_all : (role : Text) → IsStaff role → sees_all role ≡ true
unfolding sees_all ◌=t◌
IsStaff-sees_all role (inl e) = rw e refl
IsStaff-sees_all role (inr (inl e)) = rw e refl
IsStaff-sees_all role (inr (inr (inl e))) = rw e refl
IsStaff-sees_all role (inr (inr (inr e))) = rw e refl

true_right : (b : Bool) → (b || true) ≡ true
true_right true = refl
true_right false = refl

-- Which arm of `check_device` returned.
arms :
    (all customer star : Bool) (r : Result (Unit {0}))
    → (if all
        then ok tt
        else if customer
        then (if star then ok tt else r)
        else err (unauthorized unknown_role))
      ≡ ok tt
    → (all ≡ true) ⊎ ((customer ≡ true) × ((star ≡ true) ⊎ (r ≡ ok tt)))
arms true customer star r h = inl refl
arms false true true r h = inr (refl, inl refl)
arms false true false r h = inr (refl, inr h)
arms false false star r h = cc

module _ (json : Json) where
  open json use {Value, from_str, as_array, as_i64}

  unfoldable pub any_names : ℕ → List Value → Bool
  unfolding names_device
  any_names device_id [] = false
  any_names device_id (v ∷ vs) = names_device device_id (as_i64 v) || any_names device_id vs

  in_array : ℕ → Option (List Value) → Result (Unit {0})
  unfolding any_names
  in_array device_id none = err (config scope_shape)
  in_array device_id (some arr) =
      if any_names device_id arr then ok tt else err (unauthorized device_not_authorised)

  in_scope : ℕ → Option Value → Result (Unit {0})
  unfolding in_array
  in_scope device_id none = err (config scope_json)
  in_scope device_id (some scope) = in_array device_id (as_array scope)

  unfoldable pub check_device : User → ℕ → Result (Unit {0})
  unfolding sees_all in_scope ◌=t◌
  check_device user device_id =
      if sees_all user.role
      then ok tt
      else if user.role =t codes "customer"
      then (if user.device_scope =t codes "*"
          then ok tt
          else in_scope device_id (from_str user.device_scope))
      else err (unauthorized unknown_role)

  -- One of the values is the device's id.
  pub Names : ℕ → List Value → Type 0
  Names device_id [] = ⊥
  Names device_id (v ∷ vs) = (as_i64 v ≡ some (pos device_id)) ⊎ Names device_id vs

  any_names-Names :
      (device_id : ℕ) (vs : List Value) → any_names device_id vs ≡ true → Names device_id vs
  unfolding any_names Names
  any_names-Names device_id [] h = cc
  any_names-Names device_id (v ∷ vs) h = elim (Bool-cases (names_device device_id (as_i64 v))) [
    | inl e ↦ inl (names_device-some device_id (as_i64 v) e)
    | inr e ↦ inr (any_names-Names device_id vs (sym (ap (λ b. b || any_names device_id vs) e) ∙ h))
  ]

  Names-any_names :
      (device_id : ℕ) (vs : List Value) → Names device_id vs → any_names device_id vs ≡ true
  unfolding any_names names_device Names
  Names-any_names device_id [] h = absurd h
  Names-any_names device_id (v ∷ vs) (inl e) = rw (e, ==_refl device_id) refl
  Names-any_names device_id (v ∷ vs) (inr n) =
      rw (Names-any_names device_id vs n) (true_right (names_device device_id (as_i64 v)))

  -- What the roles promise: the staff roles reach every device; a customer reaches every device by
  -- the scope `*`, and else the devices that its scope, a JSON array, names.
  pub data MayUse (user : User) (device_id : ℕ) : Type 0 where
    staff : IsStaff user.role → MayUse user device_id
    everything :
        user.role ≡ codes "customer" → user.device_scope ≡ codes "*" → MayUse user device_id
    listed :
        (scope : Value) (arr : List Value)
        → user.role ≡ codes "customer"
        → from_str user.device_scope ≡ some scope
        → as_array scope ≡ some arr
        → Names device_id arr
        → MayUse user device_id

  in_array-ok :
      (device_id : ℕ) (o : Option (List Value))
      → in_array device_id o ≡ ok tt
      → (arr : List Value) × (o ≡ some arr) × (any_names device_id arr ≡ true)
  unfolding in_array
  in_array-ok device_id none h = cc
  in_array-ok device_id (some arr) h = (arr, refl, ground (arith, h))

  in_scope-ok :
      (device_id : ℕ) (o : Option Value)
      → in_scope device_id o ≡ ok tt
      → (v : Value) × (arr : List Value) × (o ≡ some v)
        × (as_array v ≡ some arr)
        × (any_names device_id arr ≡ true)
  unfolding in_scope
  in_scope-ok device_id none h = cc
  in_scope-ok device_id (some v) h =
      let (arr, e, n) = in_array-ok device_id (as_array v) h in (v, arr, refl, e, n)

  -- The check passes exactly for the callers that may use the device: those of the roles owner,
  -- admin, support and viewer, and a customer whose scope is `*` or a JSON array with the device's
  -- id.
  pub check_device_iff :
      (user : User) (device_id : ℕ) → (check_device user device_id ≡ ok tt) ↔ MayUse user device_id
  unfolding check_device
  check_device_iff user device_id = (to, from)
    where
      to : check_device user device_id ≡ ok tt → MayUse user device_id
      to h =
          elim (arms (sees_all user.role) (user.role =t codes "customer")
            (user.device_scope =t codes "*") (in_scope device_id (from_str user.device_scope)) h) [
              | inl e ↦ staff (sees_all-IsStaff user.role e)
              | inr (r, inl d) ↦
                  everything (=t_sound user.role (codes "customer") r)
                    (=t_sound user.device_scope (codes "*") d)
              | inr (r, inr d) ↦
                  let (v, arr, f, a, n) = in_scope-ok device_id (from_str user.device_scope) d in
                  listed v arr (=t_sound user.role (codes "customer") r) f a
                    (any_names-Names device_id arr n)
            ]

      from : MayUse user device_id → check_device user device_id ≡ ok tt
      from (staff s) = rw (IsStaff-sees_all user.role s)
      from (everything r d) = rw (r, d) refl
      from (listed v arr r f a n) = elim (Bool-cases (user.device_scope =t codes "*")) [
        | inl e ↦ rw (r, e) refl
        | inr e ↦ rw (r, e, f, a, Names-any_names device_id arr n) refl
      ]
