-- ===== src/Agent/Diag/Recent.antt =====
-- The ring of connections shows the newest ones.
use codeless_workspace.Agent.Diag.{
  ConnectionEvent, push_connection, DiagState, recent_connections, new_state, remove_first,
}
use codeless_workspace.Base.{
  ℕ, zero, suc, ◌≤◌, ◌≡◌, refl, sym, ap, ◌∙◌, inl, inr, List, [], ◌∷◌, ◌++◌, reverse, arith, leb,
  if◌then◌else◌, Bool-cases, length, take, length-reverse, length-append,
}
use mathlib.Core.List.{append-nil, append_assoc, reverse-cons, reverse-append}

unfoldable pub push_all : List ConnectionEvent → DiagState → DiagState
push_all [] g = g
push_all (ev ∷ evs) g = push_all evs (push_connection ev g)

module _ {A : Type 0} where
  take_all : (n : ℕ) (xs : List A) → length xs ≤ n → take n xs ≡ xs
  take_all zero [] h = refl
  take_all zero (x ∷ xs) h = absurd (omega (arith, h))
  take_all (suc n) [] h = refl
  take_all (suc n) (x ∷ xs) h = ap (λ t. x ∷ t) (take_all n xs (omega (arith, h)))

  -- Exactly the first list of two.
  take-append : (n : ℕ) (xs ys : List A) → length xs ≡ n → take n (xs ++ ys) ≡ xs
  take-append zero [] ys h = refl
  take-append zero (x ∷ xs) ys h = absurd (omega (arith, h))
  take-append (suc n) [] ys h = absurd (omega (arith, h))
  take-append (suc n) (x ∷ xs) ys h = ap (λ t. x ∷ t) (take-append n xs ys (omega (arith, h)))

  take-take : (n m : ℕ) (xs : List A) → n ≤ m → take n (take m xs) ≡ take n xs
  take-take zero m xs h = refl
  take-take (suc n) zero xs h = absurd (omega (arith, h))
  take-take (suc n) (suc m) [] h = refl
  take-take (suc n) (suc m) (x ∷ xs) h = ap (λ t. x ∷ t) (take-take n m xs (omega (arith, h)))

  take_after : (n m : ℕ) (xs ys : List A) → n ≤ m → take n (xs ++ take m ys) ≡ take n (xs ++ ys)
  take_after zero m xs ys h = refl
  take_after (suc n) m [] ys h = take-take (suc n) m ys h
  take_after (suc n) m (x ∷ xs) ys h = ap (λ t. x ∷ t) (take_after n m xs ys (omega (arith, h)))

-- Without its oldest event, a full ring shows one fewer.
reverse-remove_first :
    (xs : List ConnectionEvent)
    → length xs ≡ 64
    → (reverse (remove_first xs) ≡ take 63 (reverse xs)) × (length (remove_first xs) ≡ 63)
unfolding remove_first
reverse-remove_first [] h = absurd (omega (arith, h))
reverse-remove_first (x ∷ xs) h = (
  sym (
      ap (take 63) (reverse-cons x xs)
      ∙ take-append 63 (reverse xs) (x ∷ []) (omega (arith, h, length-reverse xs))),
  omega (arith, h),
)

kept :
    (xs : List ConnectionEvent)
    → length xs ≤ 64
    → (reverse (if leb 64 (length xs) then remove_first xs else xs) ≡ take 63 (reverse xs))
      × (length (if leb 64 (length xs) then remove_first xs else xs) ≤ 63)
kept xs h = elim (Bool-cases (leb 64 (length xs))) [
  | inl full ↦
      let (shown, count) = reverse-remove_first xs (ground (arith, full, h)) in
      rw full (shown, omega (arith, count))
  | inr space ↦
      let few : length xs ≤ 63 = ground (arith, space) in
      rw space (sym (take_all 63 (reverse xs) (omega (arith, few, length-reverse xs))), few)
]

push_connection-take :
    (ev : ConnectionEvent) (g : DiagState)
    → length g.connections ≤ 64
    → (recent_connections (push_connection ev g) ≡ take 64 (ev ∷ recent_connections g))
      × (length (push_connection ev g).connections ≤ 64)
unfolding push_connection recent_connections
push_connection-take ev g h =
    let (shown, count) = kept g.connections h in
    (
      reverse-append
            (if leb 64 (length g.connections) then remove_first g.connections else g.connections)
            (ev ∷ [])
          ∙ ap (λ t. ev ∷ t) shown,
      omega (
        arith,
        count,
        length-append
            (if leb 64 (length g.connections) then remove_first g.connections else g.connections)
            (ev ∷ []),
      ),
    )

push_all-take :
    (evs : List ConnectionEvent) (g : DiagState)
    → length g.connections ≤ 64
    → recent_connections (push_all evs g) ≡ take 64 (reverse evs ++ recent_connections g)
unfolding push_all
push_all-take [] g h = sym (
    take_all 64 (recent_connections g)
      (unfold recent_connections in omega (arith, h, length-reverse g.connections)))
push_all-take (ev ∷ evs) g h =
    let (shown, count) = push_connection-take ev g h in
    push_all-take evs (push_connection ev g) count
    ∙ ap (λ r. take 64 (reverse evs ++ r)) shown
    ∙ take_after 64 64 (reverse evs) (ev ∷ recent_connections g) (omega arith)
    ∙ ap (take 64) (
        sym (
          ap (λ r. r ++ recent_connections g) (reverse-cons ev evs)
          ∙ append_assoc (reverse evs) (ev ∷ []) (recent_connections g)))

-- However many connections there have been, the diagnostic page lists the newest 64, newest first.
pub recent_connections-push_all :
    (evs : List ConnectionEvent)
    → recent_connections (push_all evs new_state) ≡ take 64 (reverse evs)
recent_connections-push_all evs =
    push_all-take evs new_state (omega arith)
    ∙ ap (take 64) (unfold recent_connections in append-nil (reverse evs))
