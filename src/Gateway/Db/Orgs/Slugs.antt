-- ===== src/Gateway/Db/Orgs/Slugs.antt =====
-- Which slugs `insert` takes, in the code's test and in the table's CHECK.
use codeless_workspace.Base.{
  ℕ, ◌≤◌, ◌≡◌, refl, ◌≢◌, ◌↔◌, ◌⊎◌, inl, [], ◌∷◌, arith, Text, All, length, Lacks, All-map,
}
use codeless_workspace.Gateway.Error.{ok, err, bad_request, slug_taken}
use codeless_workspace.Gateway.Schema.{Database}
use codeless_workspace.Gateway.Schema.Inserts.{insert_org, glob_slug}
use codeless_workspace.Gateway.Db.Orgs.{validate_slug, check_rest, lower_or_digit, insert, taken}

abbrev pub IsLowerOrDigit : ℕ → Type 0
IsLowerOrDigit c = ((b'a' ≤ c) × (c ≤ b'z')) ⊎ ((b'0' ≤ c) × (c ≤ b'9'))

abbrev pub IsSlugChar : ℕ → Type 0
IsSlugChar c = IsLowerOrDigit c ⊎ (c ≡ b'-')

-- [a-z0-9][a-z0-9-]*, at most 63 bytes
abbrev pub IsSlug : Text → Type 0
IsSlug [] = ⊥
IsSlug (c ∷ s) = IsLowerOrDigit c × All IsSlugChar s × (length s ≤ 62)

rest_sound : (s : Text) → check_rest s ≡ ok tt → All IsSlugChar s
unfolding check_rest lower_or_digit
rest_sound [] h = tt
rest_sound (c ∷ s) h = (ground arith, rest_sound s (ground arith))

rest_complete : (s : Text) → All IsSlugChar s → check_rest s ≡ ok tt
unfolding check_rest lower_or_digit
rest_complete [] h = refl
rest_complete (c ∷ s) h = ground (arith, rest_complete s h.1)

validate_slug-IsSlug : (s : Text) → validate_slug s ≡ ok tt → IsSlug s
unfolding validate_slug lower_or_digit
validate_slug-IsSlug [] h = cc
validate_slug-IsSlug (c ∷ s) h = (ground arith, rest_sound s (ground arith), ground arith)

slug_complete : (s : Text) → IsSlug s → validate_slug s ≡ ok tt
unfolding validate_slug lower_or_digit
slug_complete [] h = absurd h
slug_complete (c ∷ s) h = ground (arith, rest_complete s h.1)

-- The code's test takes exactly the slugs that its messages describe: 1 to 63 characters,
-- lowercase letters, digits and hyphens, the first of them no hyphen.
pub validate_slug_iff : (s : Text) → (validate_slug s ≡ ok tt) ↔ IsSlug s
validate_slug_iff s = (validate_slug-IsSlug s, slug_complete s)

slug_char-ne-slash : (c : ℕ) → IsSlugChar c → c ≢ b'/'
slug_char-ne-slash c h = ground arith

-- A slug is one segment of a key.
pub IsSlug-Lacks : (s : Text) → IsSlug s → Lacks b'/' s
IsSlug-Lacks [] h = absurd h
IsSlug-Lacks (c ∷ s) h =
    (slug_char-ne-slash c (inl h.0), All-map IsSlugChar (λ x. x ≢ b'/') slug_char-ne-slash s h.1)

-- A slug of one character passes the code's test, and the table's CHECK refuses it: its GLOB wants
-- two characters. The org is not made, and the answer is that the slug is invalid or taken.
pub insert_one_char :
    (c : ℕ) (name : Text) (epoch : ℕ) (s : Database)
    → IsLowerOrDigit c
    → (validate_slug (c ∷ []) ≡ ok tt)
      × (insert (c ∷ []) name epoch s ≡ (err (bad_request slug_taken), s))
unfolding insert taken glob_slug insert_org
insert_one_char c name epoch s h =
    (slug_complete (c ∷ []) (h, tt, omega arith), rw (slug_complete (c ∷ []) (h, tt, omega arith)))
