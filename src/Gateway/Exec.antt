-- ===== src/Gateway/Exec.antt =====
-- Actions on a state: a result beside the state that is left, also where the action fails.
pub mod Steps
pub mod Preserves
use codeless_workspace.Base.{
  ℕ, zero, suc, ◌+◌, ◌-◌, ◌*◌, ◌/◌, ◌%◌, ◌^◌, ◌≤◌, ◌<◌, min, max, String, ◌≡◌, refl, sym, ap, ◌∙◌,
  ◌≢◌, ◌↔◌, ◌⊎◌, inl, inr, Bool, true, false, not, ◌&&◌, ◌||◌, Option, none, some, List, [], ◌∷◌,
  ◌++◌, map, reverse, arith, ltb, leb, ◌==◌, if◌then◌else◌, Bool-cases, Option-cases, Text, codes,
  ◌=t◌, =t_iff, =t_refl, =t_sound, All, length, true-ne-false, is_some, is_none, unwrap_or,
}
use codeless_workspace.Gateway.Error.{GatewayError, Result, ok, err}

abbrev pub Exec : Type 0 → Type 0 → Type 0
Exec S A = S → Result A × S

module _ {S A : Type 0} where
  abbrev pub pure : A → Exec S A
  pure a s = (ok a, s)

  abbrev pub raise : GatewayError → Exec S A
  raise e s = (err e, s)

  abbrev pub lift : Result A → Exec S A
  lift r s = (r, s)

  abbrev pub gets : (S → A) → Exec S A
  gets f s = (ok (f s), s)

  abbrev pub or_raise : Option A → GatewayError → Exec S A
  or_raise none e s = (err e, s)
  or_raise (some a) e s = (ok a, s)

  abbrev pub settle : S → Result A × S → Result A × S
  settle s (ok a, s') = (ok a, s')
  settle s (err e, s') = (err e, s)

  -- `conn.transaction()`, dropped without a commit where the body fails
  abbrev pub transaction : Exec S A → Exec S A
  transaction m s = settle s (m s)

module _ {S : Type 0} where
  abbrev pub modify : (S → S) → Exec S (Unit {0})
  modify f s = (ok tt, f s)

  -- `if !test { return Err(e) }`
  abbrev pub require : Bool → GatewayError → Exec S (Unit {0})
  require true e s = (ok tt, s)
  require false e s = (err e, s)

module _ {S A B : Type 0} where
  abbrev pub continue : Result A × S → (A → Exec S B) → Result B × S
  continue (ok a, s) f = f a s
  continue (err e, s) f = (err e, s)

  infixl 5 ◌>>=◌ ◌>>◌
  abbrev pub ◌>>=◌ : Exec S A → (A → Exec S B) → Exec S B
  ◌>>=◌ m f s = continue (m s) f

  abbrev pub ◌>>◌ : Exec S A → Exec S B → Exec S B
  m >> n = m >>= λ _. n

-- `let _ = …`: the result is dropped, and what was written stays.
abbrev pub attempt : {S A : Type 0} → Exec S A → Exec S (Unit {0})
attempt m s = let (r, s') = m s in (ok tt, s')

module _ {S A : Type 0} where
  pub or_raise-ok :
      (o : Option A) (e : GatewayError) (s : S) {a : A} → (or_raise o e s).0 ≡ ok a → o ≡ some a
  or_raise-ok none e s h = cc
  or_raise-ok (some a) e s h = cc

  pub or_raise-state : (o : Option A) (e : GatewayError) (s : S) → (or_raise o e s).1 ≡ s
  or_raise-state none e s = refl
  or_raise-state (some a) e s = refl

module _ {S A B : Type 0} where
  -- A bind that returns comes from a first action that returns.
  pub continue-ok :
      (r : Result A × S) (f : A → Exec S B) {b : B}
      → (continue r f).0 ≡ ok b
      → (a : A) × (r.0 ≡ ok a) × (continue r f ≡ f a r.1)
  continue-ok (ok a, s) f h = (a, refl, refl)
  continue-ok (err e, s) f h = cc

module _ {S A : Type 0} where
  pub settle-ok : (s : S) (r : Result A × S) {a : A} → (settle s r).0 ≡ ok a → settle s r ≡ r
  settle-ok s (ok a, s') h = refl
  settle-ok s (err e, s') h = cc

  -- A transaction that fails leaves the state as it was.
  pub settle-err :
      (s : S) (r : Result A × S) {e : GatewayError} → (settle s r).0 ≡ err e → (settle s r).1 ≡ s
  settle-err s (ok a, s') h = cc
  settle-err s (err e, s') h = refl
