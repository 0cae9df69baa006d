-- ===== src/Gateway/Api/Cmd/Listing.antt =====
-- What the cursor that `list` answers with says of the rows that are left.
use codeless_workspace.Base.{
  ℕ, zero, suc, ◌≤◌, ◌<◌, ◌≡◌, refl, ap, ◌≢◌, inl, inr, Bool, true, Option, none, List, [], ◌∷◌,
  map, arith, leb, if◌then◌else◌, Bool-cases, Text, length, take, length-take, ℤ, pos, leb_ℤ, subst,
}
use codeless_workspace.Gateway.Json.{Json}
use codeless_workspace.Gateway.Error.{ok}
use codeless_workspace.Gateway.Exec.Steps.{raised-ok, ok_inj}
use codeless_workspace.Gateway.Schema.{Database, OutboxRow}
use codeless_workspace.Gateway.Api.Cmd.{last_id, next_cursor_of}
use codeless_workspace.Gateway.Db.CmdOutbox.{
  CmdRow, row_to_cmd, page_rows, list_by_device, status_test, clamp_limit,
}
use codeless_workspace.Gateway.Db.CmdOutbox.Pages.{remaining, clamp_bounds}

length-map : {A B : Type 0} (f : A → B) (xs : List A) → length (map f xs) ≡ length xs
length-map f [] = refl
length-map f (x ∷ xs) = ap suc (length-map f xs)

last_id-ne : {V : Type 0} (items : List (CmdRow V)) → 1 ≤ length items → last_id items ≢ none
unfolding last_id
last_id-ne [] h e = absurd (omega (arith, h))
last_id-ne (r ∷ []) h e = cc
last_id-ne (r ∷ q ∷ rows) h e = last_id-ne (q ∷ rows) (omega arith) e

at_cursor :
    (n k : ℕ) (o : Option ℕ)
    → leb n k ≡ true
    → (if leb_ℤ (pos n) (pos k) then o else none) ≡ none
    → o ≡ none
at_cursor n k o full h = ground (arith, full, h)

take_short : {A : Type 0} (n : ℕ) (xs : List A) → length (take n xs) < n → take n xs ≡ xs
take_short zero xs h = absurd (omega (arith, h))
take_short (suc n) [] h = refl
take_short (suc n) (x ∷ xs) h = ap (λ ys. x ∷ ys) (take_short n xs (omega (arith, h)))

module _ (json : Json) where
  open json use {Value}

  saturated :
      (n : ℕ)
      → 1 ≤ n
      → (items : List (CmdRow Value)) → next_cursor_of (pos n) items ≡ none
      → length items < n
  unfolding next_cursor_of
  saturated n le items h = elim (Bool-cases (leb n (length items))) [
    | inl full ↦ absurd (
        last_id-ne items (ground (arith, full)) (at_cursor n (length items) (last_id items) full h))
    | inr short ↦ ground arith
  ]

  short_page :
      (d : ℕ) (test : OutboxRow → Bool) (cursor : Option ℤ) (limit : ℤ) (rows : List OutboxRow)
      → length (page_rows d test cursor (clamp_limit limit) rows) ≤ 1000
  unfolding page_rows remaining
  short_page d test cursor limit rows =
      rw (length-take (clamp_limit limit) (remaining d test cursor rows))
        (omega (arith, (clamp_bounds limit).1))

  -- For a limit between one and the maximum, an answer without a cursor has every row that was left:
  -- a client that follows the cursors until there is none has seen them all.
  pub next_cursor-none :
      (n now d : ℕ) (test : OutboxRow → Bool) (cursor : Option ℤ) (rows : List OutboxRow)
      → 1 ≤ n
      → next_cursor_of (pos n) (map (row_to_cmd json now) (page_rows d test cursor n rows)) ≡ none
      → page_rows d test cursor n rows ≡ remaining d test cursor rows
  unfolding page_rows remaining
  next_cursor-none n now d test cursor rows le h = take_short n (remaining d test cursor rows) (
      subst (λ k. k < n) (length-map (row_to_cmd json now) (page_rows d test cursor n rows))
        (saturated n le (map (row_to_cmd json now) (page_rows d test cursor n rows)) h))

  -- For a limit over the maximum, the answer never has a cursor, however many rows are left: the
  -- limit is clamped for the query, and the page is compared with the limit as it was asked for.
  pub next_cursor_over_limit :
      (n now d : ℕ) (status : Option Text) (cursor : Option ℤ) (s : Database)
      (items : List (CmdRow Value))
      → 1000 < n
      → (list_by_device json now d status cursor (pos n) s).0 ≡ ok items
      → (length items ≤ 1000) × (next_cursor_of (pos n) items ≡ none)
  unfolding list_by_device next_cursor_of
  next_cursor_over_limit n now d status cursor s items le h =
      let (test, a, e) = raised-ok (status_test status) _ _ s h in
      let few : length items ≤ 1000 =
        subst (λ (xs : List (CmdRow Value)). length xs ≤ 1000) (ok_inj e)
          (rw
            (length-map (row_to_cmd json now)
              (page_rows d test cursor (clamp_limit (pos n)) s.cmd_outbox))
            (short_page d test cursor (pos n) s.cmd_outbox)) in
      (few, ground (arith, le, few))
