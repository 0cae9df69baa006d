-- ===== src/Gateway/Auth/Middleware.antt =====
-- hackline/crates/hackline-gateway/src/auth/middleware.rs
use codeless_workspace.Gateway.Exec.{attempt}
use codeless_workspace.Base.{
  ℕ, ◌≡◌, refl, ap, ◌⊎◌, inl, inr, Bool, true, false, Option, none, some, [], ◌∷◌, ◌++◌, ◌==◌,
  if◌then◌else◌, Text, codes, ◌=t◌, =t_sound, ◌>>=?◌, find_row, find_row_sound, some_inj, ==_iff,
}
use codeless_workspace.Gateway.Schema.{Database, User, UserRow}
use codeless_workspace.Gateway.Error.{ok, GatewayError, Result, err}
use codeless_workspace.Gateway.Db.Token.{Digest}
use codeless_workspace.Gateway.Db.Users.{get_by_token_hash, touch, row_to_user}

-- The messages of `AuthError`; each is answered with the status 401.
pub data AuthError : Type 0 where
  missing_header expected_bearer invalid_token : AuthError
  failed : GatewayError → AuthError

-- `str::strip_prefix`
unfoldable pub strip_prefix : Text → Text → Option Text
strip_prefix [] s = some s
strip_prefix (c ∷ p) [] = none
strip_prefix (c ∷ p) (d ∷ s) = let rest = strip_prefix p s in if c == d then rest else none

-- What the closure makes of the lookup: the touch is `let _ = users::touch(…)`.
unfoldable pub user_of : Result (Option User) × Database → ℕ → (AuthError ⊎ User) × Database
unfolding touch
user_of (err e, s) epoch = (inl (failed e), s)
user_of (ok none, s) epoch = (inl invalid_token, s)
user_of (ok (some u), s) epoch = (inr u, (attempt (touch u.id epoch) s).1)

module _ (digest : Digest) where
  unfoldable pub looked_up : Option Text → ℕ → Database → (AuthError ⊎ User) × Database
  unfolding user_of get_by_token_hash
  looked_up none epoch s = (inl expected_bearer, s)
  looked_up (some raw_token) epoch s =
      user_of (get_by_token_hash (digest.sha256_hex raw_token) s) epoch

  unfoldable pub from_request_parts : Option Text → ℕ → Database → (AuthError ⊎ User) × Database
  unfolding looked_up strip_prefix
  from_request_parts none epoch s = (inl missing_header, s)
  from_request_parts (some header) epoch s =
      looked_up (strip_prefix (codes "Bearer ") header) epoch s

strip_sound : (p s raw : Text) → strip_prefix p s ≡ some raw → s ≡ p ++ raw
unfolding strip_prefix
strip_sound [] s raw h = some_inj h
strip_sound (c ∷ p) [] raw h = cc
strip_sound (c ∷ p) (d ∷ s) raw h = go (c == d) refl (λ k. strip_sound p s raw k) h
  where
    go :
        (b : Bool)
        → (c == d) ≡ b
        → (strip_prefix p s ≡ some raw → s ≡ p ++ raw)
        → (if b then strip_prefix p s else none) ≡ some raw
        → (d ∷ s) ≡ (c ∷ (p ++ raw))
    go true e rest k = rw ((==_iff c d).0 e, rest k) refl
    go false e rest k = cc

-- the row that holds the hash
abbrev pub holder : Database → Text → Option UserRow
holder s hash = find_row (λ (r : UserRow). r.token_hash =t hash) s.users

module _ (digest : Digest) (s : Database) (epoch : ℕ) where
  -- A bearer token is accepted, for the user whose row holds its digest, exactly if there is such a
  -- row; a request that is refused leaves the database as it was.
  pub from_request_parts_lem :
      ((raw : Text) (row : UserRow)
        → holder s (digest.sha256_hex raw) ≡ some row
        → (from_request_parts digest (some (codes "Bearer " ++ raw)) epoch s).0 ≡ inr row.user)
      × ((header : Option Text) (u : User)
          → (from_request_parts digest header epoch s).0 ≡ inr u
          → (raw : Text) × (row : UserRow) × (header ≡ some (codes "Bearer " ++ raw))
            × (row.token_hash ≡ digest.sha256_hex raw)
            × (row.user ≡ u))
      × ((header : Option Text) (e : AuthError)
          → (from_request_parts digest header epoch s).0 ≡ inl e
          → (from_request_parts digest header epoch s).1 ≡ s)
  unfolding from_request_parts
  from_request_parts_lem =
      (λ raw row h. rw h refl, λ header u h. accepted header u h, λ header e h. refused header e h)
    where
      found :
          (raw : Text) (o : Option UserRow) (u : User)
          → holder s (digest.sha256_hex raw) ≡ o
          → (user_of (ok (o >>=? λ r. some (row_to_user r)), s) epoch).0 ≡ inr u
          → (row : UserRow) × (row.token_hash ≡ digest.sha256_hex raw) × (row.user ≡ u)
      found raw none u e h = cc
      found raw (some row) u e h = (
        row,
        =t_sound row.token_hash (digest.sha256_hex raw)
            (find_row_sound (λ (r : UserRow). r.token_hash =t digest.sha256_hex raw) s.users row e),
        cc,
      )

      looked :
          (header : Text) (o : Option Text) (u : User)
          → strip_prefix (codes "Bearer ") header ≡ o
          → (looked_up digest o epoch s).0 ≡ inr u
          → (raw : Text) × (row : UserRow) × (some header ≡ some (codes "Bearer " ++ raw))
            × (row.token_hash ≡ digest.sha256_hex raw)
            × (row.user ≡ u)
      looked header none u e h = cc
      looked header (some raw) u e h =
          let (row, t, w) = found raw (holder s (digest.sha256_hex raw)) u refl h in
          (raw, row, ap some (strip_sound (codes "Bearer ") header raw e), t, w)

      accepted :
          (header : Option Text) (u : User)
          → (from_request_parts digest header epoch s).0 ≡ inr u
          → (raw : Text) × (row : UserRow) × (header ≡ some (codes "Bearer " ++ raw))
            × (row.token_hash ≡ digest.sha256_hex raw)
            × (row.user ≡ u)
      accepted none u h = cc
      accepted (some header) u h = looked header (strip_prefix (codes "Bearer ") header) u refl h

      kept :
          (o : Option User) (e : AuthError)
          → (user_of (ok o, s) epoch).0 ≡ inl e
          → (user_of (ok o, s) epoch).1 ≡ s
      kept none e h = refl
      kept (some u) e h = cc

      unread :
          (o : Option Text) (e : AuthError)
          → (looked_up digest o epoch s).0 ≡ inl e
          → (looked_up digest o epoch s).1 ≡ s
      unread none e h = refl
      unread (some raw) e h =
          kept (holder s (digest.sha256_hex raw) >>=? λ r. some (row_to_user r)) e h

      refused :
          (header : Option Text) (e : AuthError)
          → (from_request_parts digest header epoch s).0 ≡ inl e
          → (from_request_parts digest header epoch s).1 ≡ s
      refused none e h = refl
      refused (some header) e h = unread (strip_prefix (codes "Bearer ") header) e h
