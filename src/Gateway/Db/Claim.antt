-- ===== src/Gateway/Db/Claim.antt =====
-- hackline/crates/hackline-gateway/src/db/claim.rs. A fresh token's random part is an argument.
pub mod Once
pub mod Owner
pub mod Race
use codeless_workspace.Base.{
  ℕ, zero, suc, ◌+◌, ◌-◌, ◌*◌, ◌/◌, ◌%◌, ◌^◌, ◌≤◌, ◌<◌, min, max, String, ◌≡◌, refl, sym, ap, ◌∙◌,
  ◌≢◌, ◌↔◌, ◌⊎◌, inl, inr, Bool, true, false, not, ◌&&◌, ◌||◌, Option, none, some, List, [], ◌∷◌,
  ◌++◌, map, reverse, arith, ltb, leb, ◌==◌, if◌then◌else◌, Bool-cases, Option-cases, Text, codes,
  ◌=t◌, =t_iff, =t_refl, =t_sound, All, length, true-ne-false, is_some, is_none, unwrap_or, ◌>>=?◌,
}
use codeless_workspace.Gateway.Db.Orgs.{default_org_id, default_org_slug}
use codeless_workspace.Gateway.Db.Token.{Digest, TokenPair, generate, hashes_match}
use codeless_workspace.Gateway.Error.{
  Result, ok, err, db, unique, bad_request, unauthorized, no_pending_claim, invalid_claim_token,
}
use codeless_workspace.Gateway.Exec.{
  Exec, gets, or_raise, require, modify, pure, transaction, ◌>>=◌, ◌>>◌,
}
use codeless_workspace.Gateway.Schema.{Database, Org}
use codeless_workspace.Gateway.Schema.Inserts.{insert_user}
use codeless_workspace.Gateway.Db.Orgs

unfoldable pub found_or_new : Option Org → Text → ℕ → Exec Database ℕ
found_or_new (some o) slug epoch = pure o.id
found_or_new none slug epoch = do o ← Orgs.insert slug slug epoch; pure o.id

-- the org that the owner is stamped into
unfoldable pub org_for : Option Text → ℕ → Exec Database ℕ
unfolding found_or_new Orgs.get_by_slug
org_for none epoch = pure default_org_id
org_for (some slug) epoch =
    if slug =t default_org_slug
    then pure default_org_id
    else (do existing ← Orgs.get_by_slug slug; found_or_new existing slug epoch)

-- The transaction of `consume`. Its DELETE need not find a row.
unfoldable pub install : TokenPair → Text → Option Text → ℕ → Exec Database TokenPair
unfolding org_for
install bearer owner_name org_slug epoch = transaction (do
  modify (λ s. record s { claim_pending = none })
  org_id ← org_for org_slug epoch
  insert_user org_id owner_name (codes "owner") bearer.hash epoch
  pure bearer)

module _ (digest : Digest) where
  unfoldable pub ensure_pending : Text → ℕ → Exec Database (Option Text)
  unfolding generate
  ensure_pending random epoch s =
      if ltb 0 (length s.users)
      then (ok none, s)
      else if is_some s.claim_pending
      then (ok none, s)
      else (let pair = generate digest random in
          (ok (some pair.raw), record s { claim_pending = some (pair.hash, epoch) }))

  unfoldable pub is_pending : Exec Database Bool
  is_pending = gets λ s. is_some s.claim_pending

  unfoldable pub is_claimed : Exec Database Bool
  is_claimed = gets λ s. ltb 0 (length s.users)

  -- What `consume` reads and tests before its transaction.
  unfoldable pub verified : Text → Exec Database (Unit {0})
  verified claim_token = do
    pending ← gets (λ s. s.claim_pending)
    stored ← or_raise pending (bad_request no_pending_claim)
    require (hashes_match (digest.sha256_hex claim_token) stored.0)
        (unauthorized invalid_claim_token)

  -- A call that no other claim comes between: the test and the transaction are two steps.
  unfoldable pub consume : Text → Text → Option Text → Text → ℕ → Exec Database TokenPair
  unfolding generate verified
  consume claim_token owner_name org_slug random epoch = do
    verified claim_token
    install (generate digest random) owner_name org_slug epoch
