-- ===== src/Gateway/Db/Messages/Ring.antt =====
-- The ring that `prune` in hackline/crates/hackline-gateway/src/db/events.rs and logs.rs keeps.
use codeless_workspace.Base.{
  ℕ, zero, suc, ◌≤◌, ◌<◌, ◌≡◌, sym, ap, ◌∙◌, ◌≢◌, inl, inr, true, false, ◌&&◌, List, [], ◌∷◌,
  reverse, arith, ◌==◌, Bool-cases, All, is_some, Descending, Ascending, Descending-reverse,
  Ascending-select, All-map, delete_all, delete_no, select-delete, select-delete_apart,
  delete-reverse, reverse-reverse, find_none_of, length-reverse, length-take, count-select,
  count_rows, ==_refl, drop, delete_rows, find_row, take, select,
}
use codeless_workspace.Gateway.Schema.{MessageRow}
use codeless_workspace.Gateway.Db.Messages.{of_device, has_id, prune}

has_id-cons :
    (x : MessageRow) (xs : List MessageRow) (i : ℕ) → has_id xs i ≡ true → has_id (x ∷ xs) i ≡ true
unfolding has_id find_row
has_id-cons x xs i h = elim (Bool-cases (x.id == i)) [ inl e ↦ rw e | inr e ↦ rw e h ]

has_id_self : (xs : List MessageRow) → All (λ x. has_id xs x.id ≡ true) xs
unfolding has_id find_row
has_id_self [] = tt
has_id_self (x ∷ xs) = (
  rw (==_refl x.id),
  All-map (λ y. has_id xs y.id ≡ true) (λ y. has_id (x ∷ xs) y.id ≡ true)
      (λ y h. has_id-cons x xs y.id h) xs (has_id_self xs),
)

All-drop : (P : MessageRow → Type 0) (n : ℕ) (xs : List MessageRow) → All P xs → All P (drop n xs)
All-drop P zero xs h = h
All-drop P (suc n) [] h = tt
All-drop P (suc n) (x ∷ xs) h = All-drop P n xs h.1

-- The rows after the first `n` are deleted by their ids.
delete_tail :
    (n : ℕ) (xs : List MessageRow)
    → Descending (λ r. r.id) xs
    → delete_rows (λ r. has_id (drop n xs) r.id) xs ≡ take n xs
unfolding has_id
delete_tail zero xs h = delete_all (λ r. has_id xs r.id) xs (has_id_self xs)
delete_tail (suc n) [] h = delete_all (λ r. has_id [] r.id) [] tt
delete_tail (suc n) (x ∷ xs) h =
    delete_no (λ r. has_id (drop n xs) r.id) x xs apart ∙ ap (λ rs. x ∷ rs) (delete_tail n xs h.1)
  where
    apart : has_id (drop n xs) x.id ≡ false
    apart = ap is_some (
        find_none_of (λ (r : MessageRow). r.id == x.id) (drop n xs)
          (All-map (λ r. r.id < x.id) (λ r. (r.id == x.id) ≡ false) (λ r h. ground arith)
            (drop n xs) (All-drop (λ r. r.id < x.id) n xs h.0)))

module _ (d cap : ℕ) (rows : List MessageRow) (a : Ascending (λ (r : MessageRow). r.id) rows) where
  kept :
      select (of_device d) (prune d cap rows)
      ≡ reverse (take cap (reverse (select (of_device d) rows)))
  unfolding prune
  kept =
      select-delete (of_device d)
        (λ r. has_id (drop cap (reverse (select (of_device d) rows))) r.id) rows
      ∙ ap (delete_rows (λ r. has_id (drop cap (reverse (select (of_device d) rows))) r.id))
          (sym (reverse-reverse (select (of_device d) rows)))
      ∙ delete-reverse (λ r. has_id (drop cap (reverse (select (of_device d) rows))) r.id)
          (reverse (select (of_device d) rows))
      ∙ ap reverse (
          delete_tail cap (reverse (select (of_device d) rows)) (
            Descending-reverse (λ r. r.id) (select (of_device d) rows)
              (Ascending-select (λ r. r.id) (of_device d) rows a)))

  -- On a table in id order, pruning a device keeps exactly its newest `cap` rows, in their order, so
  -- at most `cap` of them, and leaves the rows of every other device as they were.
  pub prune_lem :
      (select (of_device d) (prune d cap rows)
        ≡ reverse (take cap (reverse (select (of_device d) rows))))
      × (count_rows (of_device d) (prune d cap rows) ≤ cap)
      × ((e : ℕ) → e ≢ d → select (of_device e) (prune d cap rows) ≡ select (of_device e) rows)
  unfolding prune
  prune_lem = (
    kept,
    rw
        (
          count-select (of_device d) (prune d cap rows),
          kept,
          length-reverse (take cap (reverse (select (of_device d) rows))),
          length-take cap (reverse (select (of_device d) rows)),
        )
        (omega arith),
    λ e ne.
        select-delete_apart (of_device e)
          (λ r. of_device d r && has_id (drop cap (reverse (select (of_device d) rows))) r.id)
          (λ r h. ground (arith, ne, h)) rows,
  )
