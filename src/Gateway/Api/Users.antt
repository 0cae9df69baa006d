-- ===== src/Gateway/Api/Users.antt =====
-- hackline/crates/hackline-gateway/src/api/users: create.rs, delete.rs, list.rs and mint_token.rs.
pub mod Minted
use codeless_workspace.Base.{
  ℕ, zero, suc, ◌+◌, ◌-◌, ◌*◌, ◌/◌, ◌%◌, ◌^◌, ◌≤◌, ◌<◌, min, max, String, ◌≡◌, refl, sym, ap, ◌∙◌,
  ◌≢◌, ◌↔◌, ◌⊎◌, inl, inr, Bool, true, false, not, ◌&&◌, ◌||◌, Option, none, some, List, [], ◌∷◌,
  ◌++◌, map, reverse, arith, ltb, leb, ◌==◌, if◌then◌else◌, Bool-cases, Option-cases, Text, codes,
  ◌=t◌, =t_iff, =t_refl, =t_sound, All, length, true-ne-false, is_some, is_none, unwrap_or, ◌>>=?◌,
}
use codeless_workspace.Gateway.Error.{
  unauthorized, bad_request, only_owner, not_permitted, delete_self, not_found,
}
use codeless_workspace.Gateway.Exec.{Exec, raise, require, pure, ◌>>=◌, ◌>>◌}
use codeless_workspace.Gateway.Schema.{Database, User}
use codeless_workspace.Gateway.Db.Token.{Digest, TokenPair, generate}
use codeless_workspace.Gateway.Db.Users

unfoldable pub is_owner : User → Bool
unfolding ◌=t◌
is_owner caller = caller.role =t codes "owner"

module _ (digest : Digest) where
  -- users::create::handler: the user and the raw token
  unfoldable pub create : User → Text → Text → Text → ℕ → Exec Database (User × Text)
  unfolding is_owner generate Users.insert
  create caller name role random epoch =
      let pair = generate digest random in
      do
        require (is_owner caller) (unauthorized only_owner)
        u ← Users.insert caller.org_id name role pair.hash epoch
        pure (u, pair.raw)

  -- users::mint_token::handler
  unfoldable pub mint_token : User → ℕ → Text → Exec Database Text
  unfolding is_owner generate Users.get Users.update_token_hash
  mint_token caller user_id random = do
    require (is_owner caller || caller.id == user_id) (unauthorized not_permitted)
    target ← Users.get user_id
    require (target.org_id == caller.org_id) not_found
    Users.update_token_hash user_id (generate digest random).hash
    pure (generate digest random).raw

answer : Bool → Exec Database (Unit {0})
answer true = pure tt
answer false = raise not_found

-- users::delete::handler
unfoldable pub delete : User → ℕ → Exec Database (Unit {0})
unfolding is_owner Users.delete_in_org answer
delete caller id = do
  require (is_owner caller) (unauthorized only_owner)
  require (not (caller.id == id)) (bad_request delete_self)
  deleted ← Users.delete_in_org caller.org_id id
  answer deleted

-- users::list::handler
unfoldable pub list : User → Exec Database (List User)
unfolding Users.list_in_org
list caller = Users.list_in_org caller.org_id
