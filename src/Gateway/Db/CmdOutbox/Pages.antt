-- ===== src/Gateway/Db/CmdOutbox/Pages.antt =====
-- The pages of `list_by_device` in db/cmd_outbox.rs, and the rows that a cursor leaves.
use codeless_workspace.Base.{
  ℕ, zero, suc, ◌≤◌, ◌<◌, ◌≡◌, refl, sym, ap, ◌∙◌, Bool, true, false, ◌&&◌, Option, none, some,
  List, [], ◌∷◌, reverse, arith, ltb, ◌==◌, All, select, take, drop, ℤ, pos, All-reverse, Ascending,
  some_inj, All-map, select_no, select-select, select_sound, All-take, subst, Descending,
  Descending-reverse, Ascending-select, select-reverse,
}
use codeless_workspace.Gateway.Schema.{OutboxRow}
use codeless_workspace.Gateway.Db.CmdOutbox.{before_cursor, page_rows, clamp_limit}
use codeless_workspace.Gateway.Db.CmdOutbox.Inv.{row_id}

pub clamp_bounds : (limit : ℤ) → (1 ≤ clamp_limit limit) × (clamp_limit limit ≤ 1000)
clamp_bounds limit = (ground arith, ground arith)

older : OutboxRow → OutboxRow → Bool
older l r = ltb r.id l.id

older_all :
    (l : OutboxRow) (xs : List OutboxRow) → All (λ y. y.id < l.id) xs → select (older l) xs ≡ xs
unfolding select older
older_all l [] h = refl
older_all l (x ∷ xs) h = ground (arith, older_all l xs h.1)

abbrev pub last : List OutboxRow → Option OutboxRow
last [] = none
last (x ∷ []) = some x
last (x ∷ y ∷ xs) = last (y ∷ xs)

last_below :
    (k : ℕ) (n : ℕ) (xs : List OutboxRow) (l : OutboxRow)
    → All (λ y. y.id < k) xs
    → last (take n xs) ≡ some l
    → l.id < k
last_below k zero xs l h e = cc
last_below k (suc n) [] l h e = cc
last_below k (suc zero) (x ∷ xs) l h e = ground (arith, h.0)
last_below k (suc (suc n)) (x ∷ []) l h e = ground (arith, h.0)
last_below k (suc (suc n)) (x ∷ y ∷ xs) l h e = last_below k (suc n) (y ∷ xs) l h.1 e

last-All :
    (P : OutboxRow → Type 0) (xs : List OutboxRow) (l : OutboxRow)
    → All P xs
    → last xs ≡ some l
    → P l
last-All P [] l h e = cc
last-All P (x ∷ []) l h e = subst P (some_inj e) h.0
last-All P (x ∷ y ∷ xs) l h e = last-All P (y ∷ xs) l h.1 e

not_older : (l x : OutboxRow) → l.id ≤ x.id → older l x ≡ false
unfolding older
not_older l x h = ground arith

-- Below the last row of a page stands what the page left.
select-older :
    (n : ℕ) (xs : List OutboxRow) (l : OutboxRow)
    → Descending row_id xs
    → last (take n xs) ≡ some l
    → select (older l) xs ≡ drop n xs
select-older zero xs l d e = cc
select-older (suc n) [] l d e = cc
select-older (suc zero) (x ∷ xs) l d e =
    let same : x ≡ l = some_inj e in
    select_no (older l) x xs (rw same (not_older l l (omega arith)))
    ∙ older_all l xs (subst (λ z. All (λ y. y.id < z.id) xs) same d.0)
select-older (suc (suc n)) (x ∷ []) l d e =
    select_no (older l) x [] (rw (some_inj e) (not_older l l (omega arith)))
    ∙ (unfold select in refl)
select-older (suc (suc n)) (x ∷ y ∷ xs) l d e =
    select_no (older l) x (y ∷ xs)
      (not_older l x (omega (arith, last_below x.id (suc n) (y ∷ xs) l d.0 e)))
    ∙ select-older (suc n) (y ∷ xs) l d.1 e

-- All that a cursor leaves to be listed, newest first.
unfoldable pub remaining : ℕ → (OutboxRow → Bool) → Option ℤ → List OutboxRow → List OutboxRow
unfolding select
remaining d test cursor rows =
    reverse (select (λ r. r.device_id == d && test r && before_cursor cursor r.id) rows)

narrower :
    (d : ℕ) (test : OutboxRow → Bool) (cursor : Option ℤ) (l : OutboxRow)
    → before_cursor cursor l.id ≡ true
    → (r : OutboxRow)
    → (r.device_id == d && test r && before_cursor (some (pos l.id)) r.id)
      ≡ ((r.device_id == d && test r && before_cursor cursor r.id) && older l r)
unfolding older
narrower d test none l h r = ground arith
narrower d test (some c) l h r = ground arith

passes :
    (d : ℕ) (test : OutboxRow → Bool) (cursor : Option ℤ) (r : OutboxRow)
    → (r.device_id == d && test r && before_cursor cursor r.id) ≡ true
    → before_cursor cursor r.id ≡ true
passes d test cursor r h = ground arith

-- In a table in rowid order, the page at the cursor of a page's last row starts where that page
-- ended: it is the next `n` of the rows that were left, newest first, with none skipped or repeated.
pub page-page :
    (d : ℕ) (test : OutboxRow → Bool) (cursor : Option ℤ) (n : ℕ) (rows : List OutboxRow)
    (l : OutboxRow)
    → Ascending row_id rows
    → last (page_rows d test cursor n rows) ≡ some l
    → (page_rows d test cursor n rows ≡ take n (remaining d test cursor rows))
      × (page_rows d test (some (pos l.id)) n rows ≡ take n (drop n (remaining d test cursor rows)))
unfolding page_rows remaining
page-page d test cursor n rows l a e = (
  refl,
  ap (take n) (
      ap reverse (
        select-select (test_at (some (pos l.id))) (test_at cursor) (older l)
          (narrower d test cursor l inside) rows)
      ∙ sym (select-reverse (older l) (select (test_at cursor) rows))
      ∙ select-older n (reverse (select (test_at cursor) rows)) l
          (Descending-reverse row_id (select (test_at cursor) rows)
            (Ascending-select row_id (test_at cursor) rows a))
          e),
)
  where
    test_at : Option ℤ → OutboxRow → Bool
    test_at c r = r.device_id == d && test r && before_cursor c r.id

    inside : before_cursor cursor l.id ≡ true
    inside =
        last-All (λ r. before_cursor cursor r.id ≡ true)
          (take n (reverse (select (test_at cursor) rows))) l
          (All-take (λ r. before_cursor cursor r.id ≡ true) n
            (reverse (select (test_at cursor) rows))
            (All-reverse (λ r. before_cursor cursor r.id ≡ true) (select (test_at cursor) rows)
              (All-map (λ r. test_at cursor r ≡ true) (λ r. before_cursor cursor r.id ≡ true)
                (passes d test cursor) (select (test_at cursor) rows)
                (select_sound (test_at cursor) rows))))
          e
