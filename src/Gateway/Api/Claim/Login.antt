-- ===== src/Gateway/Api/Claim/Login.antt =====
-- What a caller who claimed the gateway can do with the answer.
use codeless_workspace.Base.{
  ℕ, ◌≡◌, refl, sym, ap, ◌∙◌, inr, Option, none, some, [], ◌∷◌, ◌++◌, map, ◌==◌, Text, codes, ◌=t◌,
  =t_iff, find_row, find-one, some_inj,
}
use codeless_workspace.Gateway.Api.Claim.{ClaimRequest, post, ClaimResponse, first_owner}
use codeless_workspace.Gateway.Api.Users.{is_owner}
use codeless_workspace.Gateway.Auth.Middleware.{from_request_parts, from_request_parts_lem, holder}
use codeless_workspace.Gateway.Db.Claim.{consume}
use codeless_workspace.Gateway.Db.Claim.Owner.{consume_row, IsOwnerRow}
use codeless_workspace.Gateway.Db.Token.{Digest, TokenPair}
use codeless_workspace.Gateway.Db.Users.{row_to_user}
use codeless_workspace.Gateway.Error.{ok, not_found, bad_request, claim_failed}
use codeless_workspace.Gateway.Exec.{◌>>=◌, pure, continue-ok, continue, or_raise, or_raise-state}
use codeless_workspace.Gateway.Exec.Preserves.{continue-Preserves}
use codeless_workspace.Gateway.Exec.Steps.{raised-ok, ok_inj}
use codeless_workspace.Gateway.Schema.{Database, User, Org, UserRow}
use codeless_workspace.Gateway.Db.Orgs

only_owner :
    (row : UserRow) {hash : Text}
    → IsOwnerRow hash row
    → first_owner (row.user ∷ []) ≡ some row.user
unfolding first_owner is_owner
only_owner row is =
    find-one (λ (u : User). u.role =t codes "owner") row.user
      ((=t_iff row.user.role (codes "owner")).1 is.owner)

response : TokenPair → User → Org → ClaimResponse
response bearer user org = record { user_id = user.id; token = bearer.raw; org = org.slug }

-- Reading the owner and the organisation changes nothing.
reads_keep :
    (o : Option User) (bearer : TokenPair) (s : Database)
    → (continue
        (or_raise o (bad_request claim_failed) s)
        (λ user. Orgs.get user.org_id >>= λ org. pure (response bearer user org))).1
      ≡ s
unfolding Orgs.get response
reads_keep none bearer s = refl
reads_keep (some user) bearer s =
    continue-Preserves (λ x. x ≡ s)
      (or_raise (find_row (λ (o : Org). o.id == user.org_id) s.orgs) not_found s)
      (λ org. pure (response bearer user org))
      (or_raise-state (find_row (λ (o : Org). o.id == user.org_id) s.orgs) not_found s)
      (λ org s' e. e)

module _ (digest : Digest) (body : ClaimRequest) (random : Text) (epoch : ℕ) (s : Database) where
  -- Where nobody is registered yet, a claim that is answered registers the owner that the answer
  -- names: afterwards, the bearer token of the answer authenticates exactly that user.
  pub post-authenticates :
      {r : ClaimResponse}
      → s.users ≡ []
      → (post digest body random epoch s).0 ≡ ok r
      → (later : ℕ)
      → (u : User) × ((from_request_parts digest
            (some (codes "Bearer " ++ r.token))
            later
            (post digest body random epoch s).1).0
          ≡ inr u)
        × (u.id ≡ r.user_id)
        × (u.role ≡ codes "owner")
  unfolding post response
  post-authenticates {r} nobody h later =
      let (bearer, claimed, e) =
        continue-ok (consume digest body.token body.name body.org random epoch s) _ h in
      let (row, is, rows, same) =
        consume_row digest body.token body.name body.org random epoch s claimed in
      let after : Database = (consume digest body.token body.name body.org random epoch s).1 in
      let all : after.users ≡ row ∷ [] = rows ∙ ap (λ us. us ++ row ∷ []) nobody in
      let (user, found, g) =
        raised-ok (first_owner (map row_to_user after.users)) _ _ after
          (sym (ap (λ x. x.0) e) ∙ h) in
      let (org, home, k) =
        raised-ok (find_row (λ (o : Org). o.id == user.org_id) after.orgs) not_found _ after g in
      let answer : response bearer user org ≡ r = ok_inj k in
      let mine : user ≡ row.user =
        some_inj
          (sym found ∙ ap (λ us. first_owner (map row_to_user us)) all ∙ only_owner row is) in
      let unchanged : (post digest body random epoch s).1 ≡ after =
        ap (λ x. x.1) e ∙ reads_keep (first_owner (map row_to_user after.users)) bearer after in
      (
        row.user,
        ap
              (λ (raw : Text).
                (from_request_parts digest (some (codes "Bearer " ++ raw)) later
                  (post digest body random epoch s).1).0)
              (sym (ap (λ (x : ClaimResponse). x.token) answer) ∙ same)
            ∙ (from_request_parts_lem digest (post digest body random epoch s).1 later).0 random row
                (ap (λ (d : Database). holder d (digest.sha256_hex random)) unchanged
                  ∙ ap (find_row (λ (x : UserRow). x.token_hash =t digest.sha256_hex random)) all
                  ∙ find-one (λ (x : UserRow). x.token_hash =t digest.sha256_hex random) row
                      ((=t_iff row.token_hash (digest.sha256_hex random)).1 is.token)),
        ap (λ (x : User). x.id) (sym mine) ∙ ap (λ (x : ClaimResponse). x.user_id) answer,
        is.owner,
      )
