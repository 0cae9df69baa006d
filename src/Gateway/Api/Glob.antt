-- ===== src/Gateway/Api/Glob.antt =====
-- The matcher of hackline/crates/hackline-gateway/src/api/events/stream.rs, on bytes.
pub mod Matches
use codeless_workspace.Base.{
  ℕ, zero, suc, ◌+◌, ◌-◌, ◌*◌, ◌/◌, ◌%◌, ◌^◌, ◌≤◌, ◌<◌, min, max, String, ◌≡◌, refl, sym, ap, ◌∙◌,
  ◌≢◌, ◌↔◌, ◌⊎◌, inl, inr, Bool, true, false, not, ◌&&◌, ◌||◌, Option, none, some, List, [], ◌∷◌,
  ◌++◌, map, reverse, arith, ltb, leb, ◌==◌, if◌then◌else◌, Bool-cases, Option-cases, Text, codes,
  ◌=t◌, =t_iff, =t_refl, =t_sound, All, length, true-ne-false, is_some, is_none, unwrap_or, ◌>>=?◌,
}

abbrev pub is_nil : {A : Type 0} → List A → Bool
is_nil [] = true
is_nil (c ∷ v) = false

-- The arm of `*`: the rest of the pattern here, or the same pattern one byte later.
unfoldable pub at_some_suffix : (List ℕ → Bool) → List ℕ → Bool
at_some_suffix rest [] = rest []
at_some_suffix rest (c ∷ v) = rest (c ∷ v) || at_some_suffix rest v

-- The arm of `?`.
unfoldable pub after_any : (List ℕ → Bool) → List ℕ → Bool
after_any rest [] = false
after_any rest (c ∷ v) = rest v

-- The arm of any other byte.
unfoldable pub after_same : ℕ → (List ℕ → Bool) → List ℕ → Bool
after_same c rest [] = false
after_same c rest (d ∷ v) = d == c && rest v

-- inner
unfoldable pub glob_bytes : List ℕ → List ℕ → Bool
unfolding at_some_suffix after_any after_same
glob_bytes [] v = is_nil v
glob_bytes (c ∷ p) v =
    if c == b'*'
    then at_some_suffix (glob_bytes p) v
    else if c == b'?'
    then after_any (glob_bytes p) v
    else after_same c (glob_bytes p) v

-- glob_match, of texts as their bytes
unfoldable pub glob_match : Text → Text → Bool
unfolding glob_bytes
glob_match pattern value = glob_bytes pattern value
