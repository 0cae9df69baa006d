-- ===== src/Gateway/Schema.antt =====
-- The tables of hackline/crates/hackline-gateway/migrations, with their UNIQUE, CHECK and
-- REFERENCES constraints, as the statements of the repositories meet them (db/pool.rs turns
-- `foreign_keys` on). A table is the list of its rows in rowid order.
pub mod Inserts
pub mod Deletes
pub mod Cascade
use codeless_workspace.Base.{
  ℕ, zero, suc, ◌+◌, ◌-◌, ◌*◌, ◌/◌, ◌%◌, ◌^◌, ◌≤◌, ◌<◌, min, max, String, ◌≡◌, refl, sym, ap, ◌∙◌,
  ◌≢◌, ◌↔◌, ◌⊎◌, inl, inr, Bool, true, false, not, ◌&&◌, ◌||◌, Option, none, some, List, [], ◌∷◌,
  ◌++◌, map, reverse, arith, ltb, leb, ◌==◌, if◌then◌else◌, Bool-cases, Option-cases, Text, codes,
  ◌=t◌, =t_iff, =t_refl, =t_sound, All, length, true-ne-false, is_some, is_none, unwrap_or,
  find_row, fresh_rowid, delete_rows, update_rows, ℤ, leb_ℤ,
}
use codeless_workspace.Gateway.Error.{Result, ok, err, db, unique, foreign_key, check}
use codeless_workspace.Gateway.Exec.{Exec}

pub record Org : Type 0 where
  pub id : ℕ
  pub slug : Text
  pub name : Text
  pub created_at : ℕ

pub record User : Type 0 where
  pub id : ℕ
  pub org_id : ℕ
  pub name : Text
  pub role : Text
  pub device_scope : Text
  pub tunnel_scope : Text
  pub expires_at : Option ℕ
  pub created_at : ℕ
  pub last_used_at : Option ℕ

-- A row of `users`: what the program reads as a `User`, and the column that it never reads.
pub record UserRow : Type 0 where
  pub user : User
  pub token_hash : Text

pub record Device : Type 0 where
  pub id : ℕ
  pub org_id : ℕ
  pub zid : Text
  pub label : Text
  pub customer_id : Option ℕ
  pub created_at : ℕ
  pub last_seen_at : Option ℕ

pub record Tunnel : Type 0 where
  pub id : ℕ
  pub device_id : ℕ
  pub kind : Text
  pub local_port : ℤ
  pub public_hostname : Option Text
  pub public_port : Option ℤ
  pub enabled : Bool
  pub created_at : ℕ

pub record AuditEntry : Type 0 where
  pub id : ℕ
  pub ts : ℕ
  pub ts_close : Option ℕ
  pub user_id : Option ℕ
  pub device_id : Option ℕ
  pub tunnel_id : Option ℕ
  pub request_id : Option Text
  pub action : Text
  pub peer : Option Text
  pub bytes_up : Option ℤ
  pub bytes_down : Option ℤ
  pub detail : Option Text

-- Rows of `events` and `logs`; an event has no level.
pub record MessageRow : Type 0 where
  pub id : ℕ
  pub device_id : ℕ
  pub topic : Text
  pub ts : ℤ
  pub level : Option Text
  pub content_type : Text
  pub payload : Text

pub record OutboxRow : Type 0 where
  pub id : ℕ
  pub cmd_id : Text
  pub device_id : ℕ
  pub topic : Text
  pub content_type : Text
  pub payload : Text
  pub enqueued_at : ℕ
  pub expires_at : ℕ
  pub delivered_at : Option ℕ
  pub ack_at : Option ℕ
  pub ack_result : Option Text
  pub ack_detail : Option Text
  pub attempts : ℕ
  pub last_error : Option Text

pub record Database : Type 0 where
  pub orgs : List Org
  pub users : List UserRow
  pub devices : List Device
  pub tunnels : List Tunnel
  -- the one row that `CHECK (id = 1)` lets in: its token hash and its time
  pub claim_pending : Option (Text × ℕ)
  pub audit : List AuditEntry
  pub events : List MessageRow
  pub logs : List MessageRow
  pub cmd_outbox : List OutboxRow

-- After the migrations: the `default` org, and nothing else.
abbrev pub fresh_database : Database
fresh_database = record {
  orgs = record { id = 1; slug = codes "default"; name = codes "default"; created_at = 0 } ∷ [];
  users = [];
  devices = [];
  tunnels = [];
  claim_pending = none;
  audit = [];
  events = [];
  logs = [];
  cmd_outbox = [];
}

abbrev pub has_org : Database → ℕ → Bool
has_org s id = is_some (find_row (λ (o : Org). o.id == id) s.orgs)

abbrev pub has_device : Database → ℕ → Bool
has_device s id = is_some (find_row (λ (d : Device). d.id == id) s.devices)
