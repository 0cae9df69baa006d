-- ===== src/Gateway/Db/Users.antt =====
-- hackline/crates/hackline-gateway/src/db/users.rs
pub mod Hashes
use codeless_workspace.Base.{
  ℕ, Bool, not, ◌&&◌, Option, some, List, map, ◌==◌, if◌then◌else◌, Text, ◌=t◌, is_some, is_none,
  ◌>>=?◌, find_row, select, update_rows,
}
use codeless_workspace.Gateway.Error.{ok, err, db, unique, not_found}
use codeless_workspace.Gateway.Exec.{Exec, gets, or_raise, modify, ◌>>=◌}
use codeless_workspace.Gateway.Schema.{Database, User, UserRow}
use codeless_workspace.Gateway.Schema.Inserts.{insert_user}
use codeless_workspace.Gateway.Schema.Deletes.{delete_users}

-- `row_to_user`
abbrev pub row_to_user : UserRow → User
row_to_user r = r.user

unfoldable pub get_by_token_hash : Text → Exec Database (Option User)
unfolding find_row ◌=t◌
get_by_token_hash token_hash = gets λ s.
    find_row (λ (r : UserRow). r.token_hash =t token_hash) s.users >>=? λ r. some (row_to_user r)

unfoldable pub get : ℕ → Exec Database User
unfolding find_row
get id s =
    or_raise (find_row (λ (r : UserRow). r.user.id == id) s.users >>=? λ r. some (row_to_user r))
      not_found s

unfoldable pub insert : ℕ → Text → Text → Text → ℕ → Exec Database User
unfolding insert_user get
insert org_id name role token_hash epoch = do
  id ← insert_user org_id name role token_hash epoch
  get id

unfoldable pub list : Exec Database (List User)
list = gets λ s. map row_to_user s.users

unfoldable pub list_in_org : ℕ → Exec Database (List User)
unfolding select
list_in_org org_id =
    gets λ s. map row_to_user (select (λ (r : UserRow). r.user.org_id == org_id) s.users)

unfoldable pub delete : ℕ → Exec Database Bool
unfolding delete_users find_row
delete id s = (
  ok (is_some (find_row (λ (r : UserRow). r.user.id == id) s.users)),
  delete_users (λ r. r.user.id == id) s,
)

unfoldable pub delete_in_org : ℕ → ℕ → Exec Database Bool
unfolding delete_users find_row
delete_in_org org_id id s = (
  ok (is_some (find_row (λ (r : UserRow). r.user.id == id && r.user.org_id == org_id) s.users)),
  delete_users (λ r. r.user.id == id && r.user.org_id == org_id) s,
)

unfoldable pub touch : ℕ → ℕ → Exec Database (Unit {0})
unfolding update_rows
touch id epoch = modify λ s. record s {
  users =
      update_rows (λ r. r.user.id == id)
        (λ r. record r { user = record (r.user) { last_used_at = some epoch } }) s.users;
}

-- The UPDATE fails where another row has the hash.
unfoldable pub update_token_hash : ℕ → Text → Exec Database (Unit {0})
unfolding update_rows find_row ◌=t◌
update_token_hash id token_hash s =
    if is_none (find_row (λ (r : UserRow). r.user.id == id) s.users)
    then (err not_found, s)
    else if is_some
        (find_row (λ (r : UserRow). r.token_hash =t token_hash && not (r.user.id == id)) s.users)
    then (err (db unique), s)
    else (
      ok tt,
      record s {
        users =
            update_rows (λ r. r.user.id == id) (λ r. record r { token_hash = token_hash }) s.users;
      },
    )
