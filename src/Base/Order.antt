-- ===== src/Base/Order.antt =====
-- Tables in rowid order, lists in the reverse order, and keys that stand once.
use Prim.Native.Nat.{ℕ, suc, ◌≤◌, ◌<◌}
use mathlib.Core.Logic.{◌≢◌, inl, inr}
use mathlib.Core.Path.{◌≡◌}
use mathlib.Core.Bool.{Bool}
use mathlib.Core.List.{reverse-cons, List, [], ◌∷◌, ◌++◌, reverse}
use native.Mathlib.Omega.{arith}
use codeless_workspace.Base.Tests.{Bool-cases}
use codeless_workspace.Base.Lists.{All-reverse, All-append, All}
use codeless_workspace.Base.Sql.{select, delete_rows, update_rows, max_rowid, fresh_rowid}
use codeless_workspace.Base.SqlLaws.{All-delete, All-update, All-select}

module _ {ℓ} {A : Type ℓ} where
  -- Rows are held in rowid order.
  abbrev pub Ascending : (A → ℕ) → List A → Type 0
  Ascending key [] = Unit
  Ascending key (x ∷ xs) = All (λ y. key x < key y) xs × Ascending key xs

  -- Newest first.
  abbrev pub Descending : (A → ℕ) → List A → Type 0
  Descending key [] = Unit
  Descending key (x ∷ xs) = All (λ y. key y < key x) xs × Descending key xs

module _ {ℓ} {A : Type ℓ} (key : A → ℕ) where
  below_fresh : (xs : List A) (n : ℕ) → max_rowid key xs ≤ n → All (λ x. key x < suc n) xs
  unfolding max_rowid
  below_fresh [] n h = tt
  below_fresh (x ∷ xs) n h = (omega arith, below_fresh xs n (omega arith))

  pub fresh_rowid-above : (xs : List A) → All (λ x. key x < fresh_rowid key xs) xs
  unfolding fresh_rowid
  fresh_rowid-above xs = below_fresh xs (max_rowid key xs) (omega arith)

  pub Ascending-append :
      (xs : List A) (y : A)
      → All (λ x. key x < key y) xs
      → Ascending key xs
      → Ascending key (xs ++ y ∷ [])
  Ascending-append [] y h a = (tt, tt)
  Ascending-append (x ∷ xs) y h a =
      (All-append (λ z. key x < key z) xs (y ∷ []) a.0 (h.0, tt), Ascending-append xs y h.1 a.1)

  pub Ascending-delete :
      (p : A → Bool) (xs : List A) → Ascending key xs → Ascending key (delete_rows p xs)
  unfolding delete_rows
  Ascending-delete p [] a = tt
  Ascending-delete p (x ∷ xs) a = elim (Bool-cases (p x)) [
    | inl e ↦ rw e (Ascending-delete p xs a.1)
    | inr e ↦ rw e (All-delete (λ y. key x < key y) p xs a.0, Ascending-delete p xs a.1)
  ]

  pub Ascending-update :
      (p : A → Bool) (f : A → A)
      → ((x : A) → key (f x) ≡ key x)
      → (xs : List A) → Ascending key xs
      → Ascending key (update_rows p f xs)
  unfolding update_rows
  Ascending-update p f k [] a = tt
  Ascending-update p f k (x ∷ xs) a =
      let above : All (λ y. key x < key y) (update_rows p f xs) =
        All-update (λ y. key x < key y) p f (λ y _ h. rw (k y) h) xs a.0 in
      elim (Bool-cases (p x)) [
        | inl e ↦ rw e (rw (k x) above, Ascending-update p f k xs a.1)
        | inr e ↦ rw e (above, Ascending-update p f k xs a.1)
      ]

-- No two rows have one key.
abbrev pub Distinct {ℓ κ} : {A : Type ℓ} {K : Type κ} → (A → K) → List A → Type κ
Distinct key [] = Unit
Distinct key (x ∷ xs) = All (λ y. key x ≢ key y) xs × Distinct key xs

module _ {ℓ κ} {A : Type ℓ} {K : Type κ} (key : A → K) where
  pub Distinct-append :
      (xs : List A) (y : A)
      → All (λ x. key x ≢ key y) xs
      → Distinct key xs
      → Distinct key (xs ++ y ∷ [])
  Distinct-append [] y h a = (tt, tt)
  Distinct-append (x ∷ xs) y h a =
      (All-append (λ z. key x ≢ key z) xs (y ∷ []) a.0 (h.0, tt), Distinct-append xs y h.1 a.1)

  pub Distinct-delete :
      (p : A → Bool) (xs : List A) → Distinct key xs → Distinct key (delete_rows p xs)
  unfolding delete_rows
  Distinct-delete p [] a = tt
  Distinct-delete p (x ∷ xs) a = elim (Bool-cases (p x)) [
    | inl e ↦ rw e (Distinct-delete p xs a.1)
    | inr e ↦ rw e (All-delete (λ y. key x ≢ key y) p xs a.0, Distinct-delete p xs a.1)
  ]

  pub Distinct-update :
      (p : A → Bool) (f : A → A)
      → ((x : A) → key (f x) ≡ key x)
      → (xs : List A) → Distinct key xs
      → Distinct key (update_rows p f xs)
  unfolding update_rows
  Distinct-update p f k [] a = tt
  Distinct-update p f k (x ∷ xs) a =
      let apart : All (λ y. key x ≢ key y) (update_rows p f xs) =
        All-update (λ y. key x ≢ key y) p f (λ y _ h. rw (k y) h) xs a.0 in
      elim (Bool-cases (p x)) [
        | inl e ↦ rw e (rw (k x) apart, Distinct-update p f k xs a.1)
        | inr e ↦ rw e (apart, Distinct-update p f k xs a.1)
      ]

module _ {ℓ} {A : Type ℓ} (key : A → ℕ) where
  Descending-append :
      (xs : List A) (y : A)
      → All (λ x. key y < key x) xs
      → Descending key xs
      → Descending key (xs ++ y ∷ [])
  Descending-append [] y h d = (tt, tt)
  Descending-append (x ∷ xs) y h d =
      (All-append (λ z. key z < key x) xs (y ∷ []) d.0 (h.0, tt), Descending-append xs y h.1 d.1)

  pub Descending-reverse : (xs : List A) → Ascending key xs → Descending key (reverse xs)
  Descending-reverse [] a = tt
  Descending-reverse (x ∷ xs) a = rw (reverse-cons x xs) (
      Descending-append (reverse xs) x (All-reverse (λ y. key x < key y) xs a.0)
        (Descending-reverse xs a.1))

  pub Ascending-select :
      (p : A → Bool) (xs : List A) → Ascending key xs → Ascending key (select p xs)
  unfolding select
  Ascending-select p [] a = tt
  Ascending-select p (x ∷ xs) a = elim (Bool-cases (p x)) [
    | inl e ↦ rw e (All-select (λ y. key x < key y) p xs a.0, Ascending-select p xs a.1)
    | inr e ↦ rw e (Ascending-select p xs a.1)
  ]
