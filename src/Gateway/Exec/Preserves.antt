-- ===== src/Gateway/Exec/Preserves.antt =====
-- What every action of a chain keeps, the chain keeps.
use codeless_workspace.Base.{Bool, true, false, Option, none, some}
use codeless_workspace.Gateway.Error.{Result, GatewayError, ok, err}
use codeless_workspace.Gateway.Exec.{
  Exec, continue, or_raise, require, settle, transaction, lift, attempt,
}

module _ {S : Type 0} (P : S → Type 0) where
  abbrev pub Preserves : {A : Type 0} → Exec S A → Type 0
  Preserves m = (s : S) → P s → P (m s).1

  module _ {A : Type 0} where
    pub lift-Preserves : (r : Result A) → Preserves (lift r)
    lift-Preserves r s h = h

    pub or_raise-Preserves : (o : Option A) (e : GatewayError) → Preserves (or_raise o e)
    or_raise-Preserves none e s h = h
    or_raise-Preserves (some a) e s h = h

    pub settle-Preserves : (s : S) (r : Result A × S) → P s → P r.1 → P (settle s r).1
    settle-Preserves s (ok a, s') h k = k
    settle-Preserves s (err e, s') h k = h

    pub transaction-Preserves : (m : Exec S A) → Preserves m → Preserves (transaction m)
    transaction-Preserves m k s h = settle-Preserves s (m s) h (k s h)

    pub attempt-Preserves : (m : Exec S A) → Preserves m → Preserves (attempt m)
    attempt-Preserves m k s h = k s h

  pub require-Preserves : (b : Bool) (e : GatewayError) → Preserves (require b e)
  require-Preserves true e s h = h
  require-Preserves false e s h = h

  -- A chain keeps what its first action has kept and the rest of it keeps.
  pub continue-Preserves :
      {A B : Type 0} (r : Result A × S) (f : A → Exec S B)
      → P r.1
      → ((a : A) (s : S) → P s → P (f a s).1)
      → P (continue r f).1
  continue-Preserves (ok a, s) f h k = k a s h
  continue-Preserves (err e, s) f h k = h
