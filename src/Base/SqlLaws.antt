-- ===== src/Base/SqlLaws.antt =====
-- What the statements of `Sql` do to counts, lookups and properties of all rows.
use Prim.Native.Nat.{◌+◌, ◌≤◌}
use mathlib.Core.Logic.{inl, inr}
use mathlib.Core.Path.{◌≡◌, refl}
use mathlib.Core.Bool.{Bool, true, false, ◌&&◌}
use mathlib.Core.Option.{none, some}
use mathlib.Core.List.{List, [], ◌∷◌, ◌++◌}
use native.Mathlib.Omega.{arith}
use codeless_workspace.Base.Tests.{Bool-cases, ◌>>=?◌, if◌then◌else◌}
use codeless_workspace.Base.Lists.{length, All}
use codeless_workspace.Base.Sql.{select, find_row, count_rows, delete_rows, update_rows}

-- What the statements do to a property of all rows, to counts, to keys and to a lookup.
module _ {ℓ} {A : Type ℓ} where
  pub find_row_sound : (p : A → Bool) (xs : List A) (x : A) → find_row p xs ≡ some x → p x ≡ true
  unfolding find_row
  find_row_sound p [] x h = cc
  find_row_sound p (y ∷ xs) x h = ground (arith, find_row_sound p xs x)

  pub find_row-none :
      (p : A → Bool) (xs : List A) → find_row p xs ≡ none → All (λ x. p x ≡ false) xs
  unfolding find_row
  find_row-none p [] h = tt
  find_row-none p (y ∷ xs) h = (ground arith, find_row-none p xs (ground arith))

  pub find_none_of : (p : A → Bool) (xs : List A) → All (λ x. p x ≡ false) xs → find_row p xs ≡ none
  unfolding find_row
  find_none_of p [] h = refl
  find_none_of p (x ∷ xs) h = rw (h.0, find_none_of p xs h.1)

  pub length-update :
      (p : A → Bool) (f : A → A) (xs : List A) → length (update_rows p f xs) ≡ length xs
  unfolding update_rows
  length-update p f [] = refl
  length-update p f (x ∷ xs) = ground (arith, length-update p f xs)

  pub select_sound : (p : A → Bool) (xs : List A) → All (λ x. p x ≡ true) (select p xs)
  unfolding select
  select_sound p [] = tt
  select_sound p (x ∷ xs) = elim (Bool-cases (p x)) [
    | inl e ↦ rw e (e, select_sound p xs)
    | inr e ↦ rw e (select_sound p xs)
  ]

  pub select_yes :
      (p : A → Bool) (x : A) (xs : List A) → p x ≡ true → select p (x ∷ xs) ≡ x ∷ select p xs
  unfolding select
  select_yes p x xs e = rw e

  pub select_no :
      (p : A → Bool) (x : A) (xs : List A) → p x ≡ false → select p (x ∷ xs) ≡ select p xs
  unfolding select
  select_no p x xs e = rw e

  pub select-append :
      (p : A → Bool) (xs ys : List A) → select p (xs ++ ys) ≡ select p xs ++ select p ys
  unfolding select
  select-append p [] ys = refl
  select-append p (x ∷ xs) ys = ground (arith, select-append p xs ys)

  -- A row passes the whole test exactly if it passes the parts one after the other.
  pub select-select :
      (p q r : A → Bool)
      → ((x : A) → p x ≡ (q x && r x))
      → (xs : List A) → select p xs ≡ select r (select q xs)
  unfolding select
  select-select p q r h [] = refl
  select-select p q r h (x ∷ xs) = ground (arith, h x, select-select p q r h xs)

  pub delete_none : (p : A → Bool) (xs : List A) → All (λ x. p x ≡ false) xs → delete_rows p xs ≡ xs
  unfolding delete_rows
  delete_none p [] h = refl
  delete_none p (x ∷ xs) h = rw (h.0, delete_none p xs h.1)

  pub update_none :
      (p : A → Bool) (f : A → A) (xs : List A) → All (λ x. p x ≡ false) xs → update_rows p f xs ≡ xs
  unfolding update_rows
  update_none p f [] h = refl
  update_none p f (x ∷ xs) h = rw (h.0, update_none p f xs h.1)

  pub count-append :
      (p : A → Bool) (xs ys : List A) → count_rows p (xs ++ ys) ≡ count_rows p xs + count_rows p ys
  unfolding count_rows
  count-append p [] ys = omega arith
  count-append p (x ∷ xs) ys = ground (arith, count-append p xs ys)

  pub count-delete-le :
      (p q : A → Bool) (xs : List A) → count_rows q (delete_rows p xs) ≤ count_rows q xs
  unfolding count_rows delete_rows
  count-delete-le p q [] = omega arith
  count-delete-le p q (x ∷ xs) = ground (arith, count-delete-le p q xs)

  pub count-update-le :
      (p : A → Bool) (f : A → A) (q : A → Bool)
      → ((x : A) → q (f x) ≡ true → q x ≡ true)
      → (xs : List A) → count_rows q (update_rows p f xs) ≤ count_rows q xs
  unfolding count_rows update_rows
  count-update-le p f q h [] = omega arith
  count-update-le p f q h (x ∷ xs) = ground (arith, h x, count-update-le p f q h xs)

  pub All-delete {κ} :
      (P : A → Type κ) (p : A → Bool) (xs : List A) → All P xs → All P (delete_rows p xs)
  unfolding delete_rows
  All-delete P p [] h = tt
  All-delete P p (x ∷ xs) h = elim (Bool-cases (p x)) [
    | inl e ↦ rw e (All-delete P p xs h.1)
    | inr e ↦ rw e (h.0, All-delete P p xs h.1)
  ]

  pub All-update {κ} :
      (P : A → Type κ) (p : A → Bool) (f : A → A)
      → ((x : A) → p x ≡ true → P x → P (f x))
      → (xs : List A) → All P xs
      → All P (update_rows p f xs)
  unfolding update_rows
  All-update P p f k [] h = tt
  All-update P p f k (x ∷ xs) h = elim (Bool-cases (p x)) [
    | inl e ↦ rw e (k x e h.0, All-update P p f k xs h.1)
    | inr e ↦ rw e (h.0, All-update P p f k xs h.1)
  ]

  pub All-select {κ} :
      (P : A → Type κ) (p : A → Bool) (xs : List A) → All P xs → All P (select p xs)
  unfolding select
  All-select P p [] h = tt
  All-select P p (x ∷ xs) h = elim (Bool-cases (p x)) [
    | inl e ↦ rw e (h.0, All-select P p xs h.1)
    | inr e ↦ rw e (All-select P p xs h.1)
  ]

  pub find-append :
      (p : A → Bool) (xs : List A) (y : A)
      → p y ≡ true
      → All (λ x. p x ≡ false) xs
      → find_row p (xs ++ y ∷ []) ≡ some y
  unfolding find_row
  find-append p [] y h k = rw h
  find-append p (x ∷ xs) y h k = rw k.0 (find-append p xs y h k.1)

  pub find-append_none :
      (p : A → Bool) (xs ys : List A) → find_row p xs ≡ none → find_row p (xs ++ ys) ≡ find_row p ys
  unfolding find_row
  find-append_none p [] ys h = refl
  find-append_none p (x ∷ xs) ys h = ground (arith, find-append_none p xs ys)

  pub find-delete_none :
      (q p : A → Bool) (xs : List A) → find_row q xs ≡ none → find_row q (delete_rows p xs) ≡ none
  unfolding find_row delete_rows
  find-delete_none q p [] h = refl
  find-delete_none q p (x ∷ xs) h = ground (arith, find-delete_none q p xs)

  pub find-append_kept :
      (p : A → Bool) (xs ys : List A) (x : A)
      → find_row p xs ≡ some x
      → find_row p (xs ++ ys) ≡ some x
  unfolding find_row
  find-append_kept p [] ys x h = cc
  find-append_kept p (y ∷ xs) ys x h = ground (arith, find-append_kept p xs ys x)

  -- An update leaves a lookup by another test as it is, where it changes no answer of that test.
  pub find-update :
      (q p : A → Bool) (f : A → A)
      → ((x : A) → q (f x) ≡ q x)
      → (xs : List A)
      → find_row q (update_rows p f xs) ≡ (find_row q xs >>=? λ x. some (if p x then f x else x))
  unfolding find_row update_rows
  find-update q p f h [] = refl
  find-update q p f h (x ∷ xs) = ground (arith, h x, find-update q p f h xs)

  -- An update, looked up by its own test.
  pub find-update_self :
      (p : A → Bool) (f : A → A)
      → ((x : A) → p (f x) ≡ p x)
      → (xs : List A) → find_row p (update_rows p f xs) ≡ (find_row p xs >>=? λ x. some (f x))
  unfolding find_row update_rows
  find-update_self p f h [] = refl
  find-update_self p f h (x ∷ xs) = ground (arith, h x, find-update_self p f h xs)

  -- What an update has left cannot be updated again by the same test.
  pub update-update :
      (p : A → Bool) (f g : A → A)
      → ((x : A) → p (g x) ≡ false)
      → (xs : List A) → update_rows p f (update_rows p g xs) ≡ update_rows p g xs
  unfolding update_rows
  update-update p f g h [] = refl
  update-update p f g h (x ∷ xs) = ground (arith, h x, update-update p f g h xs)

  pub delete-gone : (p : A → Bool) (xs : List A) → All (λ x. p x ≡ false) (delete_rows p xs)
  unfolding delete_rows
  delete-gone p [] = tt
  delete-gone p (x ∷ xs) = elim (Bool-cases (p x)) [
    | inl e ↦ rw e (delete-gone p xs)
    | inr e ↦ rw e (e, delete-gone p xs)
  ]

  -- A row that a deletion does not reach is found as before, if the rows before it do not answer.
  pub find-delete_kept :
      (q p : A → Bool) (xs : List A) (x : A)
      → find_row q xs ≡ some x
      → p x ≡ false
      → find_row q (delete_rows p xs) ≡ some x
  unfolding find_row delete_rows
  find-delete_kept q p [] x h k = cc
  find-delete_kept q p (y ∷ xs) x h k = ground (arith, find-delete_kept q p xs x)
