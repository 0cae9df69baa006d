-- ===== src/Gateway/Db/Claim/Once.antt =====
-- The transaction of `consume` in db/claim.rs, and the claims after it.
use codeless_workspace.Base.{
  ℕ, suc, ◌<◌, ◌≡◌, refl, sym, ap, ◌∙◌, inl, inr, true, false, Option, none, some, arith,
  Bool-cases, Option-cases, Text, codes, ◌=t◌, length, is_some, length-append, find_row, lt→ltb,
}
use codeless_workspace.Gateway.Db.Claim.{
  consume, verified, install, org_for, found_or_new, ensure_pending,
}
use codeless_workspace.Gateway.Db.Orgs.{default_org_slug, get_by_slug}
use codeless_workspace.Gateway.Db.Orgs.Effects.{insert-OrgsOnly}
use codeless_workspace.Gateway.Db.Token.{
  Digest, TokenPair, hashes_match, hashes_match_iff, generate,
}
use codeless_workspace.Gateway.Error.{
  GatewayError, Result, ok, err, bad_request, unauthorized, no_pending_claim, invalid_claim_token,
}
use codeless_workspace.Gateway.Exec.{continue, continue-ok, settle-ok, settle-err}
use codeless_workspace.Gateway.Schema.{Database, Org, UserRow, has_org}
use codeless_workspace.Gateway.Schema.Inserts.{insert_user}
use codeless_workspace.Gateway.Db.Orgs

insert_user_adds :
    (org_id : ℕ) (name role hash : Text) (epoch : ℕ) (s : Database) {id : ℕ}
    → (insert_user org_id name role hash epoch s).0 ≡ ok id
    → ((insert_user org_id name role hash epoch s).1.claim_pending ≡ s.claim_pending)
      × (length (insert_user org_id name role hash epoch s).1.users ≡ suc (length s.users))
unfolding insert_user
insert_user_adds org_id name role hash epoch s h =
    elim (Bool-cases (is_some (find_row (λ (u : UserRow). u.token_hash =t hash) s.users))) [
      | inl old ↦ ground arith
      | inr new ↦ elim (Bool-cases (has_org s org_id)) [
        | inr missing ↦ ground arith
        | inl known ↦ rw (new, known) (refl, length-append s.users _ ∙ omega arith)
      ]
    ]

-- The users and the claim are those of the other state.
abbrev pub SameAccess : Database → Database → Type 0
SameAccess s s' = (s'.users ≡ s.users) × (s'.claim_pending ≡ s.claim_pending)

found_or_new_keeps :
    (o : Option Org) (slug : Text) (epoch : ℕ) (s : Database)
    → SameAccess s (found_or_new o slug epoch s).1
unfolding found_or_new
found_or_new_keeps (some o) slug epoch s = (refl, refl)
found_or_new_keeps none slug epoch s = then_pure (Orgs.insert slug slug epoch s) (
  ap (λ d. d.users) (insert-OrgsOnly slug slug epoch s),
  ap (λ d. d.claim_pending) (insert-OrgsOnly slug slug epoch s),
)
  where
    then_pure :
        (r : Result Org × Database)
        → SameAccess s r.1
        → SameAccess s (continue r (λ o s. (ok o.id, s))).1
    then_pure (ok o, s') k = k
    then_pure (err e, s') k = k

pub org_for_keeps :
    (slug : Option Text) (epoch : ℕ) (s : Database) → SameAccess s (org_for slug epoch s).1
unfolding org_for get_by_slug
org_for_keeps none epoch s = (refl, refl)
org_for_keeps (some slug) epoch s = elim (Bool-cases (slug =t default_org_slug)) [
  | inl home ↦ rw home (refl, refl)
  | inr other ↦
      rw other (found_or_new_keeps (find_row (λ (o : Org). o.slug =t slug) s.orgs) slug epoch s)
]

-- the state once the pending row is deleted
unfoldable pub unclaimed : Database → Database
unclaimed s = record s { claim_pending = none }

-- What the claim has become when a claim went through.
pub record Claimed (s s' : Database) : Type 0 where
  pub spent : s'.claim_pending ≡ none
  pub one_more : length s'.users ≡ suc (length s.users)

unfoldable pub insert_owner :
    (bearer : TokenPair) (name : Text) (epoch org_id : ℕ) → Database → Result TokenPair × Database
insert_owner bearer name epoch org_id s =
    continue (insert_user org_id name (codes "owner") bearer.hash epoch s) (λ _ s. (ok bearer, s))

insert_owner-Claimed :
    (bearer : TokenPair) (name : Text) (epoch org_id : ℕ) (s : Database) {p : TokenPair}
    → s.claim_pending ≡ none
    → (insert_owner bearer name epoch org_id s).0 ≡ ok p
    → Claimed s (insert_owner bearer name epoch org_id s).1
unfolding insert_owner
insert_owner-Claimed bearer name epoch org_id s free h =
    let (id, made, e) =
      continue-ok (insert_user org_id name (codes "owner") bearer.hash epoch s)
        (λ _ s. (ok bearer, s)) h in
    let (c, n) = insert_user_adds org_id name (codes "owner") bearer.hash epoch s made in
    rw e (record { spent = c ∙ free; one_more = n })

install-Claimed :
    (bearer : TokenPair) (name : Text) (org : Option Text) (epoch : ℕ) (s : Database)
    {p : TokenPair}
    → (install bearer name org epoch s).0 ≡ ok p
    → Claimed s (install bearer name org epoch s).1
unfolding install insert_owner unclaimed
install-Claimed bearer name org epoch s {p} h =
    let body = continue (org_for org epoch (unclaimed s)) (insert_owner bearer name epoch) in
    let e = settle-ok s body h in
    let returned : body.0 ≡ ok p = sym (ap (λ r. r.0) e) ∙ h in
    let (id, made, e2) =
      continue-ok (org_for org epoch (unclaimed s)) (insert_owner bearer name epoch) returned in
    let (users, pending) = org_for_keeps org epoch (unclaimed s) in
    let done =
      insert_owner-Claimed bearer name epoch id (org_for org epoch (unclaimed s)).1 pending
        (sym (ap (λ r. r.0) e2) ∙ returned) in
    rw (e, e2)
      (record { spent = done.spent; one_more = done.one_more ∙ ap (λ us. suc (length us)) users })

install_failed :
    (bearer : TokenPair) (name : Text) (org : Option Text) (epoch : ℕ) (s : Database)
    {e : GatewayError}
    → (install bearer name org epoch s).0 ≡ err e
    → (install bearer name org epoch s).1 ≡ s
unfolding install
install_failed bearer name org epoch s h = settle-err s _ h

ensure_claimed :
    (digest : Digest) (random : Text) (epoch : ℕ) (s : Database)
    → 0 < length s.users
    → ensure_pending digest random epoch s ≡ (ok none, s)
unfolding ensure_pending
ensure_claimed digest random epoch s h = rw (lt→ltb 0 (length s.users) h)

pub not_ok : {r : Result TokenPair} {e : GatewayError} {p : TokenPair} → r ≡ err e → r ≡ ok p → ⊥
not_ok h k = cc

pub refused :
    (digest : Digest) (token name : Text) (org : Option Text) (random : Text) (epoch : ℕ)
    (s : Database)
    → s.claim_pending ≡ none
    → consume digest token name org random epoch s ≡ (err (bad_request no_pending_claim), s)
unfolding consume verified
refused digest token name org random epoch s h = rw h

module _ (digest : Digest) (token name : Text) (org : Option Text) (random : Text) (epoch : ℕ)
    (s : Database) where
  pub matched :
      (p : Text × ℕ)
      → s.claim_pending ≡ some p
      → hashes_match (digest.sha256_hex token) p.0 ≡ true
      → consume digest token name org random epoch s
        ≡ install (generate digest random) name org epoch s
  unfolding consume verified
  matched p pending right = rw (pending, right)

  pub mismatched :
      (p : Text × ℕ)
      → s.claim_pending ≡ some p
      → hashes_match (digest.sha256_hex token) p.0 ≡ false
      → consume digest token name org random epoch s ≡ (err (unauthorized invalid_claim_token), s)
  unfolding consume verified
  mismatched p pending wrong = rw (pending, wrong)

  -- A claim that fails, for whatever reason, changes nothing.
  pub consume_failed :
      {e : GatewayError}
      → (consume digest token name org random epoch s).0 ≡ err e
      → (consume digest token name org random epoch s).1 ≡ s
  consume_failed h = elim (Option-cases s.claim_pending) [
    | inl free ↦ unfold consume verified in rw free
    | inr (p, pending) ↦ elim (Bool-cases (hashes_match (digest.sha256_hex token) p.0)) [
      | inr wrong ↦ rw (mismatched p pending wrong)
      | inl right ↦ rw (matched p pending right) (
          install_failed (generate digest random) name org epoch s
            (rw (matched p pending right) at h))
    ]
  ]

  went_through :
      (stored : Text) (t : ℕ)
      → s.claim_pending ≡ some (stored, t)
      → hashes_match (digest.sha256_hex token) stored ≡ true
      → {p : TokenPair} → (consume digest token name org random epoch s).0 ≡ ok p
      → let s' : Database = (consume digest token name org random epoch s).1 in
        Claimed s s'
        × ((t : ℕ) × (s.claim_pending ≡ some (digest.sha256_hex token, t)))
        × ((token' name' : Text) (org' : Option Text) (random' : Text) (later : ℕ)
            → consume digest token' name' org' random' later s'
              ≡ (err (bad_request no_pending_claim), s'))
        × ((random' : Text) (later : ℕ) → ensure_pending digest random' later s' ≡ (ok none, s'))
  went_through stored t pending right h =
      let e = matched (stored, t) pending right in
      let done : Claimed s (consume digest token name org random epoch s).1 =
        rw e (install-Claimed (generate digest random) name org epoch s (rw e at h)) in
      (
        done,
        (
          t,
          pending
              ∙ ap (λ x. some (x, t))
                  (sym ((hashes_match_iff (digest.sha256_hex token) stored).0 right)),
        ),
        λ token' name' org' random' later.
            refused digest token' name' org' random' later _ done.spent,
        λ random' later. ensure_claimed digest random' later _ (omega (arith, done.one_more)),
      )

  -- Of claims that run one after the other, no other between the test and the transaction of one: a
  -- claim goes through only with the token whose hash is pending. Afterwards nothing is pending,
  -- there is one more user, every claim that begins then is refused with the error that no claim is
  -- pending, and no new claim can be opened.
  pub consume_once :
      {p : TokenPair}
      → (consume digest token name org random epoch s).0 ≡ ok p
      → let s' : Database = (consume digest token name org random epoch s).1 in
        Claimed s s'
        × ((t : ℕ) × (s.claim_pending ≡ some (digest.sha256_hex token, t)))
        × ((token' name' : Text) (org' : Option Text) (random' : Text) (later : ℕ)
            → consume digest token' name' org' random' later s'
              ≡ (err (bad_request no_pending_claim), s'))
        × ((random' : Text) (later : ℕ) → ensure_pending digest random' later s' ≡ (ok none, s'))
  consume_once {p} h = elim (Option-cases s.claim_pending) [
    | inl free ↦
        absurd (not_ok (ap (λ r. r.0) (refused digest token name org random epoch s free)) h)
    | inr ((stored, t), pending) ↦
        elim (Bool-cases (hashes_match (digest.sha256_hex token) stored)) [
          | inr wrong ↦ absurd (not_ok (ap (λ r. r.0) (mismatched (stored, t) pending wrong)) h)
          | inl right ↦ went_through stored t pending right h
        ]
  ]
