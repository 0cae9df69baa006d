-- ===== src/Gateway/Schema/Deletes.antt =====
-- What a DELETE from a table of hackline/crates/hackline-gateway/migrations does, with the ON DELETE
-- clauses of the tables that refer to it.
use codeless_workspace.Base.{
  ℕ, Bool, false, ◌&&◌, Option, none, some, List, ◌==◌, is_some, find_row, delete_rows, update_rows,
}
use codeless_workspace.Gateway.Schema.{
  Database, UserRow, Device, Tunnel, AuditEntry, MessageRow, OutboxRow,
}

unfoldable pub refers : (ℕ → Bool) → Option ℕ → Bool
refers p none = false
refers p (some id) = p id

-- ON DELETE SET NULL
unfoldable pub forget_tunnels : (ℕ → Bool) → List AuditEntry → List AuditEntry
unfolding refers update_rows
forget_tunnels gone =
    update_rows (λ (a : AuditEntry). refers gone a.tunnel_id) (λ a. record a { tunnel_id = none })

unfoldable pub forget_devices : (ℕ → Bool) → List AuditEntry → List AuditEntry
unfolding refers update_rows
forget_devices gone =
    update_rows (λ (a : AuditEntry). refers gone a.device_id) (λ a. record a { device_id = none })

unfoldable pub forget_users : (ℕ → Bool) → List AuditEntry → List AuditEntry
unfolding refers update_rows
forget_users gone =
    update_rows (λ (a : AuditEntry). refers gone a.user_id) (λ a. record a { user_id = none })

unfoldable pub delete_tunnels : (Tunnel → Bool) → Database → Database
unfolding delete_rows find_row forget_tunnels
delete_tunnels p s = record s {
  tunnels = delete_rows p s.tunnels;
  audit =
      forget_tunnels (λ id. is_some (find_row (λ (t : Tunnel). t.id == id && p t) s.tunnels))
        s.audit;
}

-- the id is that of a device to be deleted
unfoldable pub doomed : (Device → Bool) → Database → ℕ → Bool
unfolding find_row
doomed p s id = is_some (find_row (λ (d : Device). d.id == id && p d) s.devices)

-- ON DELETE CASCADE of the tables that refer to a device, and SET NULL in `audit`.
unfoldable pub delete_devices : (Device → Bool) → Database → Database
unfolding delete_rows
delete_devices p s =
    let s' = delete_tunnels (λ t. doomed p s t.device_id) s in
    record s' {
      devices = delete_rows p s.devices;
      events = delete_rows (λ (e : MessageRow). doomed p s e.device_id) s.events;
      logs = delete_rows (λ (e : MessageRow). doomed p s e.device_id) s.logs;
      cmd_outbox = delete_rows (λ (r : OutboxRow). doomed p s r.device_id) s.cmd_outbox;
      audit = forget_devices (doomed p s) s'.audit;
    }

unfoldable pub delete_users : (UserRow → Bool) → Database → Database
unfolding delete_rows find_row forget_users
delete_users p s = record s {
  users = delete_rows p s.users;
  audit =
      forget_users (λ id. is_some (find_row (λ (u : UserRow). u.user.id == id && p u) s.users))
        s.audit;
}
