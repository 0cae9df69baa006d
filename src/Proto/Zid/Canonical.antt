-- ===== src/Proto/Zid/Canonical.antt =====
-- Which texts `Zid::new` of zid.rs takes, and what it keeps of them.
use codeless_workspace.Base.{
  ℕ, ◌≤◌, ◌≡◌, ◌≢◌, refl, ap, ◌↔◌, true, [], ◌∷◌, length, arith, All, Text, ◌⊎◌, ◌∙◌, sym, Lacks,
  All-map,
}
use codeless_workspace.Proto.Zid.{
  Zid, ok, new, lower, all_hex, check_len, is_ascii_hexdigit, to_ascii_lowercase,
}

-- A lowercase hexadecimal digit.
abbrev pub IsLowerHex : ℕ → Type 0
IsLowerHex c = ((b'0' ≤ c) × (c ≤ b'9')) ⊎ ((b'a' ≤ c) × (c ≤ b'f'))

-- The canonical form of the crate's header: lowercase hex, 2 to 32 of them.
pub record IsCanonical (s : Text) : Type 0 where
  pub at_least : 2 ≤ length s
  pub at_most : length s ≤ 32
  pub hex : All IsLowerHex s

lower_hex :
    (c : ℕ) → is_ascii_hexdigit (to_ascii_lowercase c) ≡ true → IsLowerHex (to_ascii_lowercase c)
unfolding is_ascii_hexdigit to_ascii_lowercase
lower_hex c h = ground arith

all_hex-lower : (s : Text) → all_hex (lower s) ≡ true → All IsLowerHex (lower s)
unfolding all_hex lower
all_hex-lower [] h = tt
all_hex-lower (c ∷ s) h = (lower_hex c (ground arith), all_hex-lower s (ground arith))

all_hex_of_lower_hex : (s : Text) → All IsLowerHex s → all_hex s ≡ true
unfolding all_hex is_ascii_hexdigit
all_hex_of_lower_hex [] h = refl
all_hex_of_lower_hex (c ∷ s) h = ground (arith, all_hex_of_lower_hex s h.1)

-- A canonical text is its own lowercase form.
pub lower_id : (s : Text) → All IsLowerHex s → lower s ≡ s
unfolding lower to_ascii_lowercase
lower_id [] h = refl
lower_id (c ∷ s) h = ground (arith, lower_id s h.1)

accepted :
    (s : Text) {z : Zid}
    → check_len s ≡ ok z
    → (2 ≤ length s) × (length s ≤ 32) × (all_hex s ≡ true) × (z.as_str ≡ s)
unfolding check_len
accepted s h = ground arith

accepts :
    (s : Text)
    → 2 ≤ length s
    → length s ≤ 32
    → all_hex s ≡ true
    → check_len s ≡ ok (record { as_str = s })
unfolding check_len
accepts s lo hi h = ground arith

-- An accepted id is the lowercase form of the text, and canonical.
pub new-IsCanonical :
    (raw : Text) {z : Zid} → new raw ≡ ok z → IsCanonical z.as_str × (z.as_str ≡ lower raw)
unfolding new
new-IsCanonical raw {z} h =
    let (lo, hi, hex, e) = accepted (lower raw) h in
    (rw e (record { at_least = lo; at_most = hi; hex = all_hex-lower raw hex }), e)

-- Every text whose lowercase form is canonical is accepted.
pub new_of_IsCanonical :
    (raw : Text) → IsCanonical (lower raw) → new raw ≡ ok (record { as_str = lower raw })
unfolding new
new_of_IsCanonical raw c =
    accepts (lower raw) c.at_least c.at_most (all_hex_of_lower_hex (lower raw) c.hex)

-- A text is accepted as the id z exactly when its lowercase form is canonical and is the text of z.
pub new_iff :
    (raw : Text) (z : Zid) → (new raw ≡ ok z) ↔ (IsCanonical (lower raw) × (z.as_str ≡ lower raw))
new_iff raw z = (
  λ h. let (c, e) = new-IsCanonical raw h in (rw e at c, e),
  λ (c, e). new_of_IsCanonical raw c ∙ ap (λ s. ok (record { as_str = s })) (sym e),
)

-- Parsing the text of an id gives the id back.
pub new-as_str : (z : Zid) → IsCanonical z.as_str → new z.as_str ≡ ok z
new-as_str z c =
    (new_iff z.as_str z).1 (rw (lower_id z.as_str c.hex) c, sym (lower_id z.as_str c.hex))

lower_hex-ne-slash : (c : ℕ) → IsLowerHex c → c ≢ b'/'
lower_hex-ne-slash c h = ground arith

-- A canonical id has no slash, so it is one segment of a key.
pub IsCanonical-Lacks : {s : Text} → IsCanonical s → Lacks b'/' s
IsCanonical-Lacks {s} c = All-map IsLowerHex (λ x. x ≢ b'/') lower_hex-ne-slash s c.hex
