-- ===== src/Examples/Access.antt =====
-- Who may do what: tokens, scopes, claims, tenants.
use codeless_workspace.Base.{
  ◌≡◌, refl, inr, true, none, some, [], ◌∷◌, codes, ◌=t◌, All, find_row, pos, Text,
}
use codeless_workspace.Examples.{
  text_json, marking_digest, gateway_db, owner, owner_row, device, session_entry,
}
use codeless_workspace.Gateway.Auth.Middleware.{from_request_parts, from_request_parts_lem}
use codeless_workspace.Gateway.Auth.Scope.{check_device, check_device_iff, MayUse}
use codeless_workspace.Gateway.Db.Audit.{list_recent, visible}
use codeless_workspace.Gateway.Db.Audit.Tenants.{
  IsOwn, list_recent-IsOwn, delete_in_org_exposes, entry_of,
}
use codeless_workspace.Gateway.Db.Claim.{consume, install}
use codeless_workspace.Gateway.Db.Claim.Once.{consume_once, Claimed}
use codeless_workspace.Gateway.Db.Claim.Race.{Claimant, installs, install_after_install}
use codeless_workspace.Gateway.Db.Devices.{delete_in_org}
use codeless_workspace.Gateway.Db.Devices.Tenancy.{delete_in_org-IsUnreferenced}
use codeless_workspace.Gateway.Db.Token.{generate, hashes_match}
use codeless_workspace.Gateway.Error.{ok}
use codeless_workspace.Gateway.Schema.{Database, fresh_database, User, AuditEntry}
use codeless_workspace.Gateway.Schema.Cascade.{IsUnreferenced}
use codeless_workspace.Gateway.Schema.Inserts.{insert_user}

-- A customer whose scope reads as the array of two numbers.
abbrev customer : User
customer = record owner { role = codes "customer"; device_scope = 7 ∷ 9 ∷ [] }

check_device_iff_example : MayUse text_json customer 9
unfolding check_device
check_device_iff_example = (check_device_iff text_json customer 9).0 refl

from_request_parts_lem_example :
    (from_request_parts marking_digest (some (codes "Bearer old")) 5 gateway_db).0 ≡ inr owner
unfolding find_row ◌=t◌
from_request_parts_lem_example =
    (from_request_parts_lem marking_digest gateway_db 5).0 (codes "old") owner_row refl

-- A gateway that waits for its owner.
abbrev unclaimed_db : Database
unclaimed_db = record fresh_database { claim_pending = some (codes "#claim", 3) }

consume_once_example :
    Claimed unclaimed_db
      (consume marking_digest (codes "claim") (codes "owner") none (codes "new") 5 unclaimed_db).1
unfolding consume hashes_match install insert_user
consume_once_example =
    (consume_once marking_digest (codes "claim") (codes "owner") none (codes "new") 5 unclaimed_db
      {p = generate marking_digest (codes "new")} refl).0

abbrev claimant : Text → Claimant
claimant random = record { name = codes "owner"; random = random; epoch = 5 }

install_after_install_example :
    (installs marking_digest
      (codes "claim")
      (claimant (codes "other"))
      (installs marking_digest (codes "claim") (claimant (codes "new")) unclaimed_db).1).0
    ≡ ok (generate marking_digest (codes "other"))
unfolding find_row ◌=t◌
install_after_install_example =
    (install_after_install marking_digest (codes "claim") (claimant (codes "new"))
      (claimant (codes "other")) 3 unclaimed_db refl refl refl refl).2

list_recent-IsOwn_example : All (IsOwn gateway_db 1) (session_entry ∷ [])
unfolding list_recent
list_recent-IsOwn_example = list_recent-IsOwn 1 (pos 50) gateway_db (session_entry ∷ []) refl

delete_in_org_exposes_example :
    (b : AuditEntry) × (entry_of (delete_in_org 1 1 gateway_db).1 1 ≡ some b)
    × (b.device_id ≡ none)
    × (b.peer ≡ some (codes "10.0.0.1"))
    × (b.request_id ≡ none)
    × (visible (delete_in_org 1 1 gateway_db).1 2 b ≡ true)
unfolding find_row
delete_in_org_exposes_example =
    delete_in_org_exposes gateway_db 1 1 session_entry device 2 refl refl refl refl

delete_in_org-IsUnreferenced_example : IsUnreferenced (delete_in_org 1 1 gateway_db).1 1
unfolding delete_in_org
delete_in_org-IsUnreferenced_example = delete_in_org-IsUnreferenced 1 1 gateway_db refl
