-- ===== src/Gateway/Exec/Steps.antt =====
-- How an action that returns, or fails, passed its steps.
use codeless_workspace.Base.{◌≡◌, refl, sym, ap, Bool, true, false, Option, none, some}
use codeless_workspace.Gateway.Error.{Result, ok, err, GatewayError}
use codeless_workspace.Gateway.Exec.{Exec, continue, or_raise, require, settle}

module _ {S A B : Type 0} where
  -- past `or_raise`
  pub raised-ok :
      (o : Option A) (e : GatewayError) (f : A → Exec S B) (s : S) {b : B}
      → (continue (or_raise o e s) f).0 ≡ ok b
      → (a : A) × (o ≡ some a) × ((f a s).0 ≡ ok b)
  raised-ok none e f s h = cc
  raised-ok (some a) e f s h = (a, refl, h)

module _ {S B : Type 0} where
  -- past `require`
  pub required-ok :
      (t : Bool) (e : GatewayError) (f : Unit {0} → Exec S B) (s : S) {b : B}
      → (continue (require t e s) f).0 ≡ ok b
      → (t ≡ true) × ((f tt s).0 ≡ ok b)
  required-ok false e f s h = cc
  required-ok true e f s h = (refl, h)

module _ {S A : Type 0} where
  -- Where the action failed, the state is the one it began with.
  abbrev pub Keeps : S → Result A × S → Type 0
  Keeps s r = (e : GatewayError) → r.0 ≡ err e → r.1 ≡ s

  pub settle-Keeps : (s : S) (r : Result A × S) → Keeps s (settle s r)
  settle-Keeps s (ok a, s') e h = cc
  settle-Keeps s (err e, s') e' h = refl

ok_value : {A : Type 0} → A → Result A → A
ok_value a (ok b) = b
ok_value a (err e) = a

pub ok_inj : {A : Type 0} {a b : A} → ok a ≡ ok b → a ≡ b
unfolding ok_value
ok_inj {a} h = ap (ok_value a) h

module _ {S A B : Type 0} where
  pub raised-Keeps :
      (o : Option A) (e : GatewayError) (f : A → Exec S B) (s : S)
      → ((a : A) → Keeps s (f a s))
      → Keeps s (continue (or_raise o e s) f)
  raised-Keeps none e f s k e' h = refl
  raised-Keeps (some a) e f s k e' h = k a e' h

  pub mapped-Keeps :
      (r : Result A × S) (g : A → B) (s : S)
      → Keeps s r
      → Keeps s (continue r (λ a s. (ok (g a), s)))
  mapped-Keeps (ok a, s') g s k e' h = cc
  mapped-Keeps (err e, s') g s k e' h = k e refl

  pub mapped-ok :
      (r : Result A × S) (g : A → B) {b : B}
      → (continue r (λ a s. (ok (g a), s))).0 ≡ ok b
      → (a : A) × (b ≡ g a)
  mapped-ok (ok a, s') g h = (a, sym (ok_inj h))
  mapped-ok (err e, s') g h = cc

module _ {S B : Type 0} where
  pub required-Keeps :
      (t : Bool) (e : GatewayError) (f : Unit {0} → Exec S B) (s : S)
      → Keeps s (f tt s)
      → Keeps s (continue (require t e s) f)
  required-Keeps false e f s k e' h = refl
  required-Keeps true e f s k e' h = k e' h
