-- ===== src/Gateway/Api/Claim.antt =====
-- hackline/crates/hackline-gateway/src/api/claim: post.rs and status.rs.
pub mod Login
use codeless_workspace.Base.{
  ℕ, zero, suc, ◌+◌, ◌-◌, ◌*◌, ◌/◌, ◌%◌, ◌^◌, ◌≤◌, ◌<◌, min, max, String, ◌≡◌, refl, sym, ap, ◌∙◌,
  ◌≢◌, ◌↔◌, ◌⊎◌, inl, inr, Bool, true, false, not, ◌&&◌, ◌||◌, Option, none, some, List, [], ◌∷◌,
  ◌++◌, map, reverse, arith, ltb, leb, ◌==◌, if◌then◌else◌, Bool-cases, Option-cases, Text, codes,
  ◌=t◌, =t_iff, =t_refl, =t_sound, All, length, true-ne-false, is_some, is_none, unwrap_or, ◌>>=?◌,
  find_row,
}
use codeless_workspace.Gateway.Api.Users.{is_owner}
use codeless_workspace.Gateway.Db.Claim.{is_claimed, consume, is_pending}
use codeless_workspace.Gateway.Db.Token.{Digest}
use codeless_workspace.Gateway.Error.{bad_request, claim_failed}
use codeless_workspace.Gateway.Exec.{Exec, ◌>>=◌, pure, or_raise}
use codeless_workspace.Gateway.Schema.{User, Database}
use codeless_workspace.Gateway.Db.Users
use codeless_workspace.Gateway.Db.Orgs

pub record ClaimRequest : Type 0 where
  pub token : Text
  pub name : Text
  pub org : Option Text

-- The field `name` where the request leaves it out.
abbrev pub default_owner_name : Text
default_owner_name = codes "owner"

pub record ClaimResponse : Type 0 where
  pub user_id : ℕ
  pub token : Text
  pub org : Text

pub record ClaimStatus : Type 0 where
  pub claimed : Bool
  pub can_claim : Bool

-- `.find(|u| u.role == "owner")`
unfoldable pub first_owner : List User → Option User
unfolding find_row is_owner
first_owner users = find_row is_owner users

module _ (digest : Digest) where
  -- claim::post::handler
  unfoldable pub post : ClaimRequest → Text → ℕ → Exec Database ClaimResponse
  unfolding consume Users.list first_owner Orgs.get
  post body random epoch = do
    bearer ← consume digest body.token body.name body.org random epoch
    users ← Users.list
    user ← or_raise (first_owner users) (bad_request claim_failed)
    org ← Orgs.get user.org_id
    pure (record { user_id = user.id; token = bearer.raw; org = org.slug })

  -- claim::status::handler
  unfoldable pub claim_status : Exec Database ClaimStatus
  unfolding is_claimed is_pending
  claim_status = do
    claimed ← is_claimed digest
    can_claim ← is_pending digest
    pure (record { claimed = claimed; can_claim = can_claim })
