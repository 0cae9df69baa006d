-- ===== src/Proto/Zid.antt =====
-- hackline/crates/hackline-proto/src/zid.rs and error.rs
pub mod Canonical
use codeless_workspace.Base.{
  ℕ, ◌+◌, Bool, true, false, ◌&&◌, ◌||◌, ltb, leb, if◌then◌else◌, map, List, [], ◌∷◌, length,
  Option, some, none,
}
use codeless_workspace.Base.{Text}

pub data ZidFault : Type 0 where
  length_outside : ℕ → ZidFault
  non_hex : ZidFault

pub data ProtoError : Type 0 where
  invalid_zid : ZidFault → ProtoError
  invalid_key_expr json : ProtoError

pub data ZidResult (A : Type 0) : Type 0 where
  ok : A → ZidResult A
  err : ProtoError → ZidResult A

-- A validated id; `new` is its only constructor.
pub record Zid : Type 0 where
  pub as_str : Text

-- `u8::to_ascii_lowercase`
unfoldable pub to_ascii_lowercase : ℕ → ℕ
to_ascii_lowercase c = if leb b'A' c && leb c b'Z' then c + 32 else c

-- `char::is_ascii_hexdigit`
unfoldable pub is_ascii_hexdigit : ℕ → Bool
is_ascii_hexdigit c =
    (leb b'0' c && leb c b'9') || (leb b'a' c && leb c b'f') || (leb b'A' c && leb c b'F')

unfoldable pub all_hex : Text → Bool
unfolding is_ascii_hexdigit
all_hex [] = true
all_hex (c ∷ s) = let rest = all_hex s in is_ascii_hexdigit c && rest

unfoldable pub lower : Text → Text
unfolding to_ascii_lowercase
lower = map to_ascii_lowercase

check_len : Text → ZidResult Zid
unfolding all_hex
check_len s =
    if ltb (length s) 2 || ltb 32 (length s)
    then err (invalid_zid (length_outside (length s)))
    else if all_hex s
    then ok (record { as_str = s })
    else err (invalid_zid non_hex)

unfoldable pub new : Text → ZidResult Zid
unfolding lower check_len
new raw = check_len (lower raw)

-- `Result::ok`
abbrev pub to_option : ZidResult Zid → Option Zid
to_option (ok z) = some z
to_option (err e) = none
