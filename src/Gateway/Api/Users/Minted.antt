-- ===== src/Gateway/Api/Users/Minted.antt =====
-- mint_token.rs, and which bearer tokens the extractor takes after it.
use codeless_workspace.Base.{
  ℕ, ◌≡◌, true, false, not, ◌&&◌, ◌||◌, some, ◌==◌, Text, is_some, find_row, update_rows,
}
use codeless_workspace.Gateway.Schema.{Database, User, UserRow}
use codeless_workspace.Gateway.Db.Token.{Digest}
use codeless_workspace.Gateway.Db.Users.Hashes.{has_hash, has_user, retag}
use codeless_workspace.Gateway.Api.Users.{mint_token, is_owner}

module _ (digest : Digest) (caller : User) (user_id : ℕ) (random : Text) (s : Database)
    (row : UserRow) (found : find_row (has_user user_id) s.users ≡ some row) where
  -- Why a mint returned, and what it returned.
  record Minted (raw : Text) : Type 0 where
    own : row.user.org_id ≡ caller.org_id
    may : (is_owner caller || caller.id == user_id) ≡ true
    clear :
        is_some (
          find_row
            (λ (r : UserRow). has_hash (digest.sha256_hex random) r && not (has_user user_id r))
            s.users)
        ≡ false
    given : random ≡ raw
    left : (mint_token digest caller user_id random s).1 ≡ record s {
      users = update_rows (has_user user_id) (retag (digest.sha256_hex random)) s.users;
    }
