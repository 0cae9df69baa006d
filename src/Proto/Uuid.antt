-- ===== src/Proto/Uuid.antt =====
-- The `uuid` crate, which the program calls and does not implement.
use codeless_workspace.Base.{Text, Lacks, ◌≡◌, some, Option}

-- `Uuid::to_string` and `Uuid::parse_str`, with what the program relies on: a printed id is read
-- back, and holds no `/` (it is hyphenated hex).
pub record Uuids : Type 1 where
  pub Uuid : Type 0
  pub to_string : Uuid → Text
  pub parse_str : Text → Option Uuid
  pub parse_str-to_string : (u : Uuid) → parse_str (to_string u) ≡ some u
  pub to_string-Lacks : (u : Uuid) → Lacks b'/' (to_string u)
