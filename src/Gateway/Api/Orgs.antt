-- ===== src/Gateway/Api/Orgs.antt =====
-- hackline/crates/hackline-gateway/src/api/orgs: create.rs, get_me.rs and list.rs.
use codeless_workspace.Base.{ℕ, Option, List, Text, unwrap_or}
use codeless_workspace.Gateway.Api.Users.{is_owner}
use codeless_workspace.Gateway.Error.{unauthorized, only_owner_creates, only_owner_lists}
use codeless_workspace.Gateway.Exec.{Exec, ◌>>◌, require}
use codeless_workspace.Gateway.Schema.{User, Database, Org}
use codeless_workspace.Gateway.Db.Orgs

pub record CreateOrg : Type 0 where
  pub slug : Text
  pub name : Option Text

-- orgs::create::handler
unfoldable pub create : User → CreateOrg → ℕ → Exec Database Org
unfolding is_owner Orgs.insert
create caller body epoch = do
  require (is_owner caller) (unauthorized only_owner_creates)
  Orgs.insert body.slug (unwrap_or body.name body.slug) epoch

-- orgs::get_me::handler
unfoldable pub get_me : User → Exec Database Org
unfolding Orgs.get
get_me caller = Orgs.get caller.org_id

-- orgs::list::handler
unfoldable pub list : User → Exec Database (List Org)
unfolding is_owner Orgs.list
list caller = do require (is_owner caller) (unauthorized only_owner_lists); Orgs.list
