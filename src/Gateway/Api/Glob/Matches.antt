-- ===== src/Gateway/Api/Glob/Matches.antt =====
-- What the matcher decides.
use codeless_workspace.Base.{
  ℕ, ◌≡◌, refl, sym, ap, ◌∙◌, ◌≢◌, ◌↔◌, inl, inr, Bool, true, false, List, [], ◌∷◌, ◌++◌, arith,
  ◌==◌, Bool-cases, true-ne-false, ==_refl,
}
use codeless_workspace.Gateway.Api.Glob.{at_some_suffix, glob_bytes, after_any, after_same}
use mathlib.Core.List.{append-nil}

-- The pattern matches the bytes: `*` stands for any bytes, `?` for one, and any other byte for
-- itself.
pub data Matches : List ℕ → List ℕ → Type 0 where
  empty : Matches [] []
  star :
      {c : ℕ} {p v w : List ℕ} (skipped : List ℕ)
      → c ≡ b'*'
      → w ≡ skipped ++ v
      → Matches p v
      → Matches (c ∷ p) w
  any : {c d : ℕ} {p v : List ℕ} → c ≡ b'?' → Matches p v → Matches (c ∷ p) (d ∷ v)
  same :
      {c d : ℕ} {p v : List ℕ} → c ≢ b'*' → c ≢ b'?' → d ≡ c → Matches p v → Matches (c ∷ p) (d ∷ v)

-- What the arm of `*` tries.
some_suffix_sound :
    (rest : List ℕ → Bool) (w : List ℕ)
    → at_some_suffix rest w ≡ true
    → (skipped : List ℕ) × (v : List ℕ) × (w ≡ skipped ++ v) × (rest v ≡ true)
unfolding at_some_suffix
some_suffix_sound rest [] h = ([], [], refl, h)
some_suffix_sound rest (c ∷ w) h = elim (Bool-cases (rest (c ∷ w))) [
  | inl here ↦ ([], c ∷ w, refl, here)
  | inr later ↦
      let (skipped, v, e, r) = some_suffix_sound rest w (ground (arith, h, later)) in
      (c ∷ skipped, v, ap (λ t. c ∷ t) e, r)
]

some_suffix_complete :
    (rest : List ℕ → Bool) (skipped v : List ℕ)
    → rest v ≡ true
    → at_some_suffix rest (skipped ++ v) ≡ true
unfolding at_some_suffix
some_suffix_complete rest [] [] h = h
some_suffix_complete rest [] (c ∷ v) h = rw h refl
some_suffix_complete rest (c ∷ skipped) v h = ground (arith, some_suffix_complete rest skipped v h)

any_sound :
    (c : ℕ) (p v : List ℕ)
    → c ≡ b'?'
    → ((w : List ℕ) → glob_bytes p w ≡ true → Matches p w)
    → after_any (glob_bytes p) v ≡ true
    → Matches (c ∷ p) v
unfolding after_any
any_sound c p [] e k h = cc
any_sound c p (d ∷ v) e k h = any e (k v h)

same_sound :
    (c : ℕ) (p v : List ℕ)
    → c ≢ b'*'
    → c ≢ b'?'
    → ((w : List ℕ) → glob_bytes p w ≡ true → Matches p w)
    → after_same c (glob_bytes p) v ≡ true
    → Matches (c ∷ p) v
unfolding after_same
same_sound c p [] n m k h = cc
same_sound c p (d ∷ v) n m k h = elim (Bool-cases (d == c)) [
  | inl e ↦ same n m (ground (arith, e)) (k v (sym (rw e refl) ∙ h))
  | inr e ↦ absurd (true-ne-false h (rw e refl))
]

glob_sound : (p v : List ℕ) → glob_bytes p v ≡ true → Matches p v
unfolding glob_bytes after_any after_same
glob_sound [] [] h = empty
glob_sound [] (c ∷ v) h = cc
glob_sound (c ∷ p) v h = elim (Bool-cases (c == b'*')) [
  | inl is_star ↦
      let (skipped, w, e, r) = some_suffix_sound (glob_bytes p) v (sym (rw is_star refl) ∙ h) in
      star skipped (ground (arith, is_star)) e (glob_sound p w r)
  | inr no_star ↦ elim (Bool-cases (c == b'?')) [
    | inl is_any ↦
        any_sound c p v (ground (arith, is_any)) (glob_sound p)
          (sym (rw (no_star, is_any) refl) ∙ h)
    | inr no_any ↦
        same_sound c p v (λ e. true-ne-false (ground (arith, e)) no_star)
          (λ e. true-ne-false (ground (arith, e)) no_any) (glob_sound p)
          (sym (rw (no_star, no_any) refl) ∙ h)
  ]
]

differs : {c d : ℕ} → c ≢ d → (c == d) ≡ false
differs {c} {d} ne = elim (Bool-cases (c == d)) [
  | inl e ↦ absurd (ne (ground (arith, e)))
  | inr e ↦ e
]

glob_complete : {p v : List ℕ} → Matches p v → glob_bytes p v ≡ true
unfolding glob_bytes after_any after_same
glob_complete empty = refl
glob_complete (star {p = p} {v = v} skipped e f m) =
    rw (e, f) (some_suffix_complete (glob_bytes p) skipped v (glob_complete m))
glob_complete (any e m) = rw e (glob_complete m)
glob_complete (same no_star no_any e m) =
    rw (differs no_star, differs no_any, e, ==_refl _) (glob_complete m)

-- The matcher answers yes exactly for the bytes that the pattern matches: `*` stands for any bytes,
-- `?` for one byte, any other byte for itself, and the whole text has to be used up. So `[` begins
-- no class of characters and stands for itself, and `?` is one byte and not one character, unlike in
-- the GLOB of SQLite.
pub glob_bytes_iff : (p v : List ℕ) → (glob_bytes p v ≡ true) ↔ Matches p v
glob_bytes_iff p v = (glob_sound p v, glob_complete)

prefix_Matches : (p w : List ℕ) → Matches (p ++ b'*' ∷ []) (p ++ w)
prefix_Matches [] w = star w refl (sym (append-nil w)) empty
prefix_Matches (c ∷ p) w = elim (Bool-cases (c == b'*')) [
  | inl e ↦ star (c ∷ []) (ground (arith, e)) refl (prefix_Matches p w)
  | inr no_star ↦ elim (Bool-cases (c == b'?')) [
    | inl e ↦ any (ground (arith, e)) (prefix_Matches p w)
    | inr no_any ↦
        same (λ e. true-ne-false (ground (arith, e)) no_star)
          (λ e. true-ne-false (ground (arith, e)) no_any) refl (prefix_Matches p w)
  ]
]

-- A `*` at the end takes every byte that is left, dots included: `graph.*` matches a topic of any
-- number of segments under `graph.`.
pub glob_bytes-star : (p w : List ℕ) → glob_bytes (p ++ b'*' ∷ []) (p ++ w) ≡ true
glob_bytes-star p w = glob_complete (prefix_Matches p w)
