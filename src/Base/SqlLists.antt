-- ===== src/Base/SqlLists.antt =====
-- How the statements of `Sql` act on what they select, and on a reversed list.
use mathlib.Core.Option.{some}
use mathlib.Core.Logic.{◌⊎◌, inl, inr}
use mathlib.Core.Path.{sym, ap, ◌∙◌, ◌≡◌, refl}
use mathlib.Core.Bool.{Bool, true, false, ◌&&◌}
use mathlib.Core.List.{reverse-cons, append-nil, List, [], ◌∷◌, ◌++◌, reverse}
use native.Mathlib.Omega.{arith}
use codeless_workspace.Base.Tests.{Bool-cases}
use codeless_workspace.Base.Lists.{length, All}
use codeless_workspace.Base.Sql.{select, count_rows, delete_rows, find_row}
use codeless_workspace.Base.SqlLaws.{select_yes, select_no, select-append}

module _ {ℓ} {A : Type ℓ} where
  -- A selection by part of the test of a deletion.
  pub select-delete :
      (p q : A → Bool) (xs : List A)
      → select p (delete_rows (λ x. p x && q x) xs) ≡ delete_rows q (select p xs)
  unfolding select delete_rows
  select-delete p q [] = refl
  select-delete p q (x ∷ xs) = ground (arith, select-delete p q xs)

  -- A selection of rows that a deletion does not reach.
  pub select-delete_apart :
      (p q : A → Bool)
      → ((x : A) → p x ≡ true → q x ≡ false)
      → (xs : List A) → select p (delete_rows q xs) ≡ select p xs
  unfolding select delete_rows
  select-delete_apart p q h [] = refl
  select-delete_apart p q h (x ∷ xs) = ground (arith, h x, select-delete_apart p q h xs)

  pub delete-append :
      (p : A → Bool) (xs ys : List A)
      → delete_rows p (xs ++ ys) ≡ delete_rows p xs ++ delete_rows p ys
  unfolding delete_rows
  delete-append p [] ys = refl
  delete-append p (x ∷ xs) ys = ground (arith, delete-append p xs ys)

  pub delete_yes :
      (p : A → Bool) (x : A) (xs : List A) → p x ≡ true → delete_rows p (x ∷ xs) ≡ delete_rows p xs
  unfolding delete_rows
  delete_yes p x xs e = rw e

  pub delete_no :
      (p : A → Bool) (x : A) (xs : List A)
      → p x ≡ false
      → delete_rows p (x ∷ xs) ≡ x ∷ delete_rows p xs
  unfolding delete_rows
  delete_no p x xs e = rw e

  pub delete_all : (p : A → Bool) (xs : List A) → All (λ x. p x ≡ true) xs → delete_rows p xs ≡ []
  unfolding delete_rows
  delete_all p [] h = refl
  delete_all p (x ∷ xs) h = rw h.0 (delete_all p xs h.1)

  pub count-select : (p : A → Bool) (xs : List A) → count_rows p xs ≡ length (select p xs)
  unfolding count_rows select
  count-select p [] = refl
  count-select p (x ∷ xs) = ground (arith, count-select p xs)

  pub select-reverse : (p : A → Bool) (xs : List A) → select p (reverse xs) ≡ reverse (select p xs)
  select-reverse p [] = unfold select in refl
  select-reverse p (x ∷ xs) =
      ap (select p) (reverse-cons x xs)
      ∙ select-append p (reverse xs) (x ∷ [])
      ∙ ap (λ l. l ++ select p (x ∷ [])) (select-reverse p xs)
      ∙ one (Bool-cases (p x))
    where
      one :
          (p x ≡ true) ⊎ (p x ≡ false)
          → reverse (select p xs) ++ select p (x ∷ []) ≡ reverse (select p (x ∷ xs))
      one (inl e) =
          rw (select_yes p x [] e, select_yes p x xs e)
            (unfold select in sym (reverse-cons x (select p xs)))
      one (inr e) =
          rw (select_no p x [] e, select_no p x xs e)
            (unfold select in append-nil (reverse (select p xs)))

  pub delete-reverse :
      (p : A → Bool) (xs : List A) → delete_rows p (reverse xs) ≡ reverse (delete_rows p xs)
  delete-reverse p [] = unfold delete_rows in refl
  delete-reverse p (x ∷ xs) =
      ap (delete_rows p) (reverse-cons x xs)
      ∙ delete-append p (reverse xs) (x ∷ [])
      ∙ ap (λ l. l ++ delete_rows p (x ∷ [])) (delete-reverse p xs)
      ∙ one (Bool-cases (p x))
    where
      one :
          (p x ≡ true) ⊎ (p x ≡ false)
          → reverse (delete_rows p xs) ++ delete_rows p (x ∷ []) ≡ reverse (delete_rows p (x ∷ xs))
      one (inl e) =
          rw (delete_yes p x [] e, delete_yes p x xs e)
            (unfold delete_rows in append-nil (reverse (delete_rows p xs)))
      one (inr e) =
          rw (delete_no p x [] e, delete_no p x xs e)
            (unfold delete_rows in sym (reverse-cons x (delete_rows p xs)))

  pub find-one : (p : A → Bool) (x : A) → p x ≡ true → find_row p (x ∷ []) ≡ some x
  unfolding find_row
  find-one p x h = rw h refl

  pub find-append_no :
      (p : A → Bool) (xs : List A) (x : A) → p x ≡ false → find_row p (xs ++ x ∷ []) ≡ find_row p xs
  unfolding find_row
  find-append_no p [] x h = rw h refl
  find-append_no p (y ∷ xs) x h = ground (arith, find-append_no p xs x h)
