-- ===== src/Gateway/Db/Orgs.antt =====
-- hackline/crates/hackline-gateway/src/db/orgs.rs
pub mod Slugs
pub mod Effects
use codeless_workspace.Base.{
  ℕ, zero, suc, ◌+◌, ◌-◌, ◌*◌, ◌/◌, ◌%◌, ◌^◌, ◌≤◌, ◌<◌, min, max, String, ◌≡◌, refl, sym, ap, ◌∙◌,
  ◌≢◌, ◌↔◌, ◌⊎◌, inl, inr, Bool, true, false, not, ◌&&◌, ◌||◌, Option, none, some, List, [], ◌∷◌,
  ◌++◌, map, reverse, arith, ltb, leb, ◌==◌, if◌then◌else◌, Bool-cases, Option-cases, Text, codes,
  ◌=t◌, =t_iff, =t_refl, =t_sound, All, length, true-ne-false, is_some, is_none, unwrap_or, ◌>>=?◌,
  find_row,
}
use codeless_workspace.Gateway.Error.{
  GatewayError, Result, ok, err, db, unique, check, not_found, bad_request, slug_length, slug_start,
  slug_chars, slug_taken,
}
use codeless_workspace.Gateway.Exec.{Exec, lift, gets, or_raise, ◌>>=◌, ◌>>◌}
use codeless_workspace.Gateway.Schema.{Database, Org}
use codeless_workspace.Gateway.Schema.Inserts.{insert_org}

abbrev pub default_org_id : ℕ
default_org_id = 1

abbrev pub default_org_slug : Text
default_org_slug = codes "default"

-- `is_ascii_lowercase() || is_ascii_digit()`
unfoldable pub lower_or_digit : ℕ → Bool
lower_or_digit c = (leb b'a' c && leb c b'z') || (leb b'0' c && leb c b'9')

check_rest : Text → Result (Unit {0})
unfolding lower_or_digit
check_rest [] = ok tt
check_rest (c ∷ s) =
    let rest = check_rest s in
    if lower_or_digit c || c == b'-' then rest else err (bad_request slug_chars)

check_first : Text → Result (Unit {0})
unfolding check_rest
check_first [] = err (bad_request slug_length)
check_first (c ∷ s) = if lower_or_digit c then check_rest s else err (bad_request slug_start)

unfoldable pub validate_slug : Text → Result (Unit {0})
unfolding check_first
validate_slug slug =
    if length slug == 0 || ltb 63 (length slug)
    then err (bad_request slug_length)
    else check_first slug

-- `map_err` on the INSERT
taken : Result ℕ → Result ℕ
taken (err (db unique)) = err (bad_request slug_taken)
taken (err (db check)) = err (bad_request slug_taken)
taken r = r

insert_or_taken : Text → Text → ℕ → Exec Database ℕ
unfolding insert_org taken
insert_or_taken slug name epoch s = let (r, s') = insert_org slug name epoch s in (taken r, s')

unfoldable pub get : ℕ → Exec Database Org
unfolding find_row
get id s = or_raise (find_row (λ (o : Org). o.id == id) s.orgs) not_found s

unfoldable pub insert : Text → Text → ℕ → Exec Database Org
unfolding insert_or_taken
insert slug name epoch = do lift (validate_slug slug); id ← insert_or_taken slug name epoch; get id

unfoldable pub list : Exec Database (List Org)
list = gets λ s. s.orgs

unfoldable pub get_by_slug : Text → Exec Database (Option Org)
unfolding find_row ◌=t◌
get_by_slug slug = gets λ s. find_row (λ (o : Org). o.slug =t slug) s.orgs
