-- ===== src/Gateway/Db/Claim/Owner.antt =====
-- The user that a claim of db/claim.rs adds.
use codeless_workspace.Base.{
  ℕ, ◌≡◌, refl, sym, ap, ◌∙◌, inl, inr, Option, none, [], ◌∷◌, ◌++◌, arith, Bool-cases,
  Option-cases, Text, codes, ◌=t◌, is_some, find_row, fresh_rowid,
}
use codeless_workspace.Gateway.Db.Claim.{install, org_for, consume}
use codeless_workspace.Gateway.Db.Claim.Once.{
  insert_owner, unclaimed, org_for_keeps, not_ok, refused, mismatched, matched,
}
use codeless_workspace.Gateway.Db.Token.{TokenPair, Digest, hashes_match, generate}
use codeless_workspace.Gateway.Error.{ok}
use codeless_workspace.Gateway.Exec.{continue-ok, continue, settle-ok}
use codeless_workspace.Gateway.Exec.Steps.{ok_inj}
use codeless_workspace.Gateway.Schema.{UserRow, Database, has_org}
use codeless_workspace.Gateway.Schema.Inserts.{insert_user}

-- A row of an owner, with the hash of the token that was handed out.
pub record IsOwnerRow (hash : Text) (r : UserRow) : Type 0 where
  pub token : r.token_hash ≡ hash
  pub owner : r.user.role ≡ codes "owner"

unfoldable pub new_owner : ℕ → ℕ → Text → Text → ℕ → UserRow
new_owner id org_id name hash epoch = record {
  user = record {
    id = id;
    org_id = org_id;
    name = name;
    role = codes "owner";
    device_scope = codes "*";
    tunnel_scope = codes "*";
    expires_at = none;
    created_at = epoch;
    last_used_at = none;
  };
  token_hash = hash;
}

insert_user_row :
    (org_id : ℕ) (name hash : Text) (epoch : ℕ) (s : Database) {id : ℕ}
    → (insert_user org_id name (codes "owner") hash epoch s).0 ≡ ok id
    → (row : UserRow) × IsOwnerRow hash row
      × ((insert_user org_id name (codes "owner") hash epoch s).1.users ≡ s.users ++ row ∷ [])
unfolding insert_user new_owner
insert_user_row org_id name hash epoch s h =
    elim (Bool-cases (is_some (find_row (λ (u : UserRow). u.token_hash =t hash) s.users))) [
      | inl old ↦ ground arith
      | inr new ↦ elim (Bool-cases (has_org s org_id)) [
        | inr missing ↦ ground arith
        | inl known ↦ (
          new_owner (fresh_rowid (λ (u : UserRow). u.user.id) s.users) org_id name hash epoch,
          record { token = refl; owner = refl },
          rw (new, known) refl,
        )
      ]
    ]

insert_owner_row :
    (bearer : TokenPair) (name : Text) (epoch org_id : ℕ) (s : Database) {p : TokenPair}
    → (insert_owner bearer name epoch org_id s).0 ≡ ok p
    → (row : UserRow) × IsOwnerRow bearer.hash row
      × ((insert_owner bearer name epoch org_id s).1.users ≡ s.users ++ row ∷ [])
      × (p ≡ bearer)
unfolding insert_owner
insert_owner_row bearer name epoch org_id s h =
    let (id, made, e) =
      continue-ok (insert_user org_id name (codes "owner") bearer.hash epoch s)
        (λ _ s. (ok bearer, s)) h in
    let (row, is, rows) = insert_user_row org_id name bearer.hash epoch s made in
    (row, is, ap (λ r. r.1.users) e ∙ rows, ok_inj (sym h ∙ ap (λ r. r.0) e))

install_row :
    (bearer : TokenPair) (name : Text) (org : Option Text) (epoch : ℕ) (s : Database)
    {p : TokenPair}
    → (install bearer name org epoch s).0 ≡ ok p
    → (row : UserRow) × IsOwnerRow bearer.hash row
      × ((install bearer name org epoch s).1.users ≡ s.users ++ row ∷ [])
      × (p ≡ bearer)
unfolding install insert_owner unclaimed
install_row bearer name org epoch s {p} h =
    let body = continue (org_for org epoch (unclaimed s)) (insert_owner bearer name epoch) in
    let e = settle-ok s body h in
    let returned : body.0 ≡ ok p = sym (ap (λ r. r.0) e) ∙ h in
    let (id, made, e2) =
      continue-ok (org_for org epoch (unclaimed s)) (insert_owner bearer name epoch) returned in
    let (users, pending) = org_for_keeps org epoch (unclaimed s) in
    let (row, is, rows, same) =
      insert_owner_row bearer name epoch id (org_for org epoch (unclaimed s)).1
        (sym (ap (λ r. r.0) e2) ∙ returned) in
    (
      row,
      is,
      ap (λ r. r.1.users) e ∙ ap (λ r. r.1.users) e2 ∙ rows ∙ ap (λ us. us ++ row ∷ []) users,
      same,
    )

module _ (digest : Digest) (token name : Text) (org : Option Text) (random : Text) (epoch : ℕ)
    (s : Database) where
  -- A claim that goes through adds one user, an owner who holds the fresh token, behind the users
  -- that were there.
  pub consume_row :
      {p : TokenPair}
      → (consume digest token name org random epoch s).0 ≡ ok p
      → (row : UserRow) × IsOwnerRow (digest.sha256_hex random) row
        × ((consume digest token name org random epoch s).1.users ≡ s.users ++ row ∷ [])
        × (p.raw ≡ random)
  consume_row {p} h = elim (Option-cases s.claim_pending) [
    | inl free ↦
        absurd (not_ok (ap (λ r. r.0) (refused digest token name org random epoch s free)) h)
    | inr (stored, pending) ↦ elim (Bool-cases (hashes_match (digest.sha256_hex token) stored.0)) [
      | inr wrong ↦ absurd (
          not_ok
            (ap (λ r. r.0) (mismatched digest token name org random epoch s stored pending wrong))
            h)
      | inl right ↦
          let e = matched digest token name org random epoch s stored pending right in
          let (row, is, rows, same) =
            install_row (generate digest random) name org epoch s (sym (ap (λ r. r.0) e) ∙ h) in
          (
            row,
            unfold generate in is,
            ap (λ r. r.1.users) e ∙ rows,
            unfold generate in ap (λ (q : TokenPair). q.raw) same,
          )
    ]
  ]
