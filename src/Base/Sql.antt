-- ===== src/Base/Sql.antt =====
-- What the SQL statements of the program do to a table: rows in rowid order, filtered, counted,
-- updated and deleted by a test, and the rowid that an insert takes.
use Prim.Native.Nat.{ℕ, suc, max}
use mathlib.Core.Bool.{Bool}
use mathlib.Core.Option.{Option, none, some}
use mathlib.Core.List.{List, [], ◌∷◌}
use codeless_workspace.Base.Tests.{if◌then◌else◌}

module _ {ℓ} {A : Type ℓ} where
  -- SELECT … WHERE p
  unfoldable pub select : (A → Bool) → List A → List A
  select p [] = []
  select p (x ∷ xs) = let rest = select p xs in if p x then x ∷ rest else rest

  -- the first row of a SELECT (`query_row`)
  unfoldable pub find_row : (A → Bool) → List A → Option A
  find_row p [] = none
  find_row p (x ∷ xs) = let rest = find_row p xs in if p x then some x else rest

  -- SELECT COUNT(*) … WHERE p
  unfoldable pub count_rows : (A → Bool) → List A → ℕ
  count_rows p [] = 0
  count_rows p (x ∷ xs) = let rest = count_rows p xs in if p x then suc rest else rest

  -- DELETE … WHERE p
  unfoldable pub delete_rows : (A → Bool) → List A → List A
  delete_rows p [] = []
  delete_rows p (x ∷ xs) = let rest = delete_rows p xs in if p x then rest else x ∷ rest

  -- UPDATE … SET f WHERE p
  unfoldable pub update_rows : (A → Bool) → (A → A) → List A → List A
  update_rows p f [] = []
  update_rows p f (x ∷ xs) = let rest = update_rows p f xs in if p x then f x ∷ rest else x ∷ rest

  unfoldable pub max_rowid : (A → ℕ) → List A → ℕ
  max_rowid key [] = 0
  max_rowid key (x ∷ xs) = max (key x) (max_rowid key xs)

  -- The rowid of an insert into an INTEGER PRIMARY KEY table: one more than the largest.
  unfoldable pub fresh_rowid : (A → ℕ) → List A → ℕ
  unfolding max_rowid
  fresh_rowid key xs = suc (max_rowid key xs)
