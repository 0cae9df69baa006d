-- ===== src/Gateway/Db/Claim/Race.antt =====
-- Two claims of db/claim.rs at once: both test the pending token before either begins its
-- transaction.
use codeless_workspace.Base.{
  ℕ, ◌≡◌, refl, ap, ◌∙◌, true, false, none, some, [], ◌∷◌, ◌++◌, Text, ◌=t◌, find_row, fresh_rowid,
}
use codeless_workspace.Gateway.Db.Claim.{verified, install, org_for}
use codeless_workspace.Gateway.Db.Claim.Owner.{IsOwnerRow, new_owner}
use codeless_workspace.Gateway.Db.Orgs.{default_org_id}
use codeless_workspace.Gateway.Db.Token.{Digest, TokenPair, generate, hashes_match_iff}
use codeless_workspace.Gateway.Error.{ok}
use codeless_workspace.Gateway.Exec.{Exec}
use codeless_workspace.Gateway.Schema.{Database, has_org, UserRow}
use codeless_workspace.Gateway.Schema.Inserts.{insert_user}

-- A claim of the pending token, into the default organisation.
pub record Claimant : Type 0 where
  pub name : Text
  pub random : Text
  pub epoch : ℕ

module _ (digest : Digest) (token : Text) where
  -- A claimant's transaction.
  abbrev pub installs : Claimant → Exec Database TokenPair
  installs c = install (generate digest c.random) c.name none c.epoch

  owner_of : Claimant → Database → UserRow
  unfolding new_owner
  owner_of c s =
      new_owner (fresh_rowid (λ (u : UserRow). u.user.id) s.users) default_org_id c.name
        (digest.sha256_hex c.random) c.epoch

  owner_of-IsOwnerRow :
      (c : Claimant) (s : Database) → IsOwnerRow (digest.sha256_hex c.random) (owner_of c s)
  unfolding owner_of new_owner
  owner_of-IsOwnerRow c s = record { token = refl; owner = refl }

  -- The transaction goes through wherever the hash is new, whether or not a claim is pending.
  installs_adds :
      (c : Claimant) (s : Database)
      → find_row (λ (u : UserRow). u.token_hash =t digest.sha256_hex c.random) s.users ≡ none
      → has_org s default_org_id ≡ true
      → installs c s ≡ (
        ok (generate digest c.random),
        record s { claim_pending = none; users = s.users ++ owner_of c s ∷ [] },
      )
  unfolding install org_for insert_user generate owner_of new_owner
  installs_adds c s new home = rw (new, home) refl

  -- The only user's hash is another.
  apart_hash :
      (a b : Claimant) (s : Database)
      → s.users ≡ []
      → (digest.sha256_hex a.random =t digest.sha256_hex b.random) ≡ false
      → find_row
          (λ (u : UserRow). u.token_hash =t digest.sha256_hex b.random)
          (s.users ++ owner_of a s ∷ [])
        ≡ none
  unfolding find_row owner_of new_owner
  apart_hash a b s nobody apart =
      ap
        (λ us.
          find_row (λ (u : UserRow). u.token_hash =t digest.sha256_hex b.random)
            (us ++ owner_of a s ∷ []))
        nobody
      ∙ rw apart refl

  -- Two claims with the pending token, into the default organisation, can both win: if both have
  -- passed the test, on a gateway that nobody has claimed, and their fresh tokens have different
  -- hashes, then both transactions go through one after the other, and both claimants are owners,
  -- the only users.
  pub install_after_install :
      (a b : Claimant) (t : ℕ) (s : Database)
      → s.users ≡ []
      → s.claim_pending ≡ some (digest.sha256_hex token, t)
      → has_org s default_org_id ≡ true
      → (digest.sha256_hex a.random =t digest.sha256_hex b.random) ≡ false
      → (verified digest token s ≡ (ok tt, s))
        × ((installs a s).0 ≡ ok (generate digest a.random))
        × ((installs b (installs a s).1).0 ≡ ok (generate digest b.random))
        × ((u : UserRow) × (v : UserRow) × ((installs b (installs a s).1).1.users ≡ u ∷ v ∷ [])
            × IsOwnerRow (digest.sha256_hex a.random) u
            × IsOwnerRow (digest.sha256_hex b.random) v)
  unfolding find_row
  install_after_install a b t s nobody pending home apart =
      let first =
        installs_adds a s
          (ap (λ us. find_row (λ (u : UserRow). u.token_hash =t digest.sha256_hex a.random) us)
            nobody)
          home in
      let after : Database = record s {
        claim_pending = none;
        users = s.users ++ owner_of a s ∷ [];
      } in
      let second = installs_adds b after (apart_hash a b s nobody apart) home in
      (
        unfold verified in
            rw
              (
                pending,
                (hashes_match_iff (digest.sha256_hex token) (digest.sha256_hex token)).1 refl,
              )
              refl,
        ap (λ r. r.0) first,
        ap (λ r. (installs b r.1).0) first ∙ ap (λ r. r.0) second,
        (
          owner_of a s,
          owner_of b after,
          ap (λ r. (installs b r.1).1.users) first
              ∙ ap (λ r. r.1.users) second
              ∙ ap (λ us. (us ++ owner_of a s ∷ []) ++ owner_of b after ∷ []) nobody,
          owner_of-IsOwnerRow a s,
          owner_of-IsOwnerRow b after,
        ),
      )
