-- ===== src/Gateway/Json.antt =====
-- The `serde_json` crate, which the program calls and does not implement.
use codeless_workspace.Base.{◌≡◌, Option, some, none, List, Text, ℤ, ◌=t◌, if◌then◌else◌}

-- JSON values, their encoding (which may fail) and decoding, with what the program relies on: what
-- was encoded is decoded to itself.
pub record Json : Type 1 where
  pub Value : Type 0
  pub null : Value
  pub to_vec : Value → Option Text
  pub from_slice : Text → Option Value
  pub from_str : Text → Option Value
  pub as_array : Value → Option (List Value)
  pub as_i64 : Value → Option ℤ
  -- `value.get(key)`, and the object of one field that `json!` builds
  pub get : Value → Text → Option Value
  pub single : Text → Text → Value
  pub string : Text → Value
  pub from_slice-to_vec :
      (v : Value) {bytes : Text} → to_vec v ≡ some bytes → from_slice bytes ≡ some v
  -- the only field of an object is found under its own key, and nothing in a null
  pub get-single :
      (key s other : Text)
      → get (single key s) other ≡ (if key =t other then some (string s) else none)
  pub get-null : (key : Text) → get null key ≡ none
