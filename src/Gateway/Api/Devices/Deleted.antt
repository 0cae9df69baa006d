-- ===== src/Gateway/Api/Devices/Deleted.antt =====
-- What the deletion of a device leaves.
use codeless_workspace.Base.{ℕ, ◌≡◌, refl, none, find_row}
use codeless_workspace.Gateway.Error.{err, not_found}
use codeless_workspace.Gateway.Schema.{Database, User}
use codeless_workspace.Gateway.Api.Detail.{Details}
use codeless_workspace.Gateway.Api.Devices.{delete}
use codeless_workspace.Gateway.Db.Devices.{in_org, get_in_org}

-- A request to delete a device that the caller's organisation does not own is answered like one for
-- a device that does not exist, and changes nothing.
pub delete_foreign :
    (details : Details) (caller : User) (id epoch : ℕ) (s : Database)
    → find_row (in_org caller.org_id id) s.devices ≡ none
    → delete details caller id epoch s ≡ (err not_found, s)
unfolding delete get_in_org
delete_foreign details caller id epoch s h = rw h refl
