-- ===== src/Gateway/Db/Users/Hashes.antt =====
-- Which user is found by a token's hash, once a user's row got another.
use codeless_workspace.Base.{
  ℕ, ◌≡◌, refl, sym, ap, ◌∙◌, ◌≢◌, inl, inr, Bool, true, false, not, ◌&&◌, none, some, List, [],
  ◌∷◌, arith, ◌==◌, if◌then◌else◌, Bool-cases, Text, ◌=t◌, =t_refl, =t_sound, All, true-ne-false,
  ◌>>=?◌, find_row, update_rows, Distinct, All-map, some_inj, subst,
}
use codeless_workspace.Gateway.Schema.{UserRow}

abbrev pub hash_of : UserRow → Text
hash_of r = r.token_hash

abbrev pub has_hash : Text → UserRow → Bool
has_hash hash r = r.token_hash =t hash

abbrev pub has_user : ℕ → UserRow → Bool
has_user id r = r.user.id == id

abbrev pub retag : Text → UserRow → UserRow
retag hash r = record r { token_hash = hash }

-- A hash that no other row has is found on the row that got it.
pub find-retag :
    (id : ℕ) (hash : Text) (rows : List UserRow)
    → All (λ r. (has_hash hash r && not (has_user id r)) ≡ false) rows
    → find_row (has_hash hash) (update_rows (has_user id) (retag hash) rows)
      ≡ (find_row (has_user id) rows >>=? λ r. some (retag hash r))
unfolding find_row update_rows
find-retag id hash [] h = refl
find-retag id hash (r ∷ rows) h = elim (Bool-cases (has_user id r)) [
  | inl e ↦ rw (e, =t_refl hash) refl
  | inr e ↦ rw (e, lacks (has_hash hash r) (rw e at h.0)) (find-retag id hash rows h.1)
]
  where
    lacks : (b : Bool) → (b && true) ≡ false → b ≡ false
    lacks b k = ground (arith, k)

not_old : (a b : Bool) → (a ≡ true → b ≡ true) → b ≡ false → a ≡ false
not_old true b f e = absurd (true-ne-false (f refl) e)
not_old false b f e = refl

-- A hash that only the row had is found nowhere once the row got another.
pub find-retag_old :
    (id : ℕ) (hash old : Text)
    → (hash =t old) ≡ false
    → (rows : List UserRow) → All (λ r. has_hash old r ≡ true → has_user id r ≡ true) rows
    → find_row (has_hash old) (update_rows (has_user id) (retag hash) rows) ≡ none
unfolding find_row update_rows
find-retag_old id hash old ne [] h = refl
find-retag_old id hash old ne (r ∷ rows) h = elim (Bool-cases (has_user id r)) [
  | inl e ↦ rw (e, ne) (find-retag_old id hash old ne rows h.1)
  | inr e ↦
      rw (e, not_old (has_hash old r) (has_user id r) h.0 e)
        (find-retag_old id hash old ne rows h.1)
]

-- What holds of every row holds of a row that is found.
found-All :
    {A : Type 0} (P : A → Type 0) (p : A → Bool) (xs : List A) (x : A)
    → All P xs
    → find_row p xs ≡ some x
    → P x
unfolding find_row
found-All P p [] x h e = cc
found-All P p (y ∷ xs) x h e = go (p y) refl (found-All P p xs x h.1) e
  where
    go :
        (b : Bool)
        → p y ≡ b
        → (find_row p xs ≡ some x → P x)
        → (if b then some y else find_row p xs) ≡ some x
        → P x
    go true q rest k = subst P (some_inj k) h.0
    go false q rest k = rest k

hash_apart : (hash : Text) (r : UserRow) → r.token_hash ≢ hash → has_hash hash r ≡ false
hash_apart hash r ne = elim (Bool-cases (has_hash hash r)) [
  | inl e ↦ absurd (ne (=t_sound r.token_hash hash e))
  | inr e ↦ e
]

-- Where hashes are unique, only the user's row has the user's hash.
pub sole_holder :
    (id : ℕ) (rows : List UserRow) (row : UserRow)
    → Distinct hash_of rows
    → find_row (has_user id) rows ≡ some row
    → All (λ r. has_hash row.token_hash r ≡ true → has_user id r ≡ true) rows
unfolding find_row
sole_holder id [] row d h = tt
sole_holder id (r ∷ rows) row d h = go (has_user id r) refl (sole_holder id rows row d.1) h
  where
    go :
        (b : Bool)
        → has_user id r ≡ b
        → (find_row (has_user id) rows ≡ some row
            → All (λ r. has_hash row.token_hash r ≡ true → has_user id r ≡ true) rows)
        → (if b then some r else find_row (has_user id) rows) ≡ some row
        → All (λ r. has_hash row.token_hash r ≡ true → has_user id r ≡ true) (r ∷ rows)
    go true e rest k = (
      λ _. e,
      All-map (λ x. r.token_hash ≢ x.token_hash)
          (λ x. has_hash row.token_hash x ≡ true → has_user id x ≡ true)
          (λ x ne q.
            absurd (ne (ap hash_of (some_inj k) ∙ sym (=t_sound x.token_hash row.token_hash q))))
          rows d.0,
    )
    go false e rest k = (
      λ q. absurd (
          found-All (λ x. r.token_hash ≢ x.token_hash) (has_user id) rows row d.0 k
            (=t_sound r.token_hash row.token_hash q)),
      rest k,
    )
