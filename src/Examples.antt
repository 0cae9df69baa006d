-- ===== src/Examples.antt =====
-- The theorems applied at concrete inputs; the data that the applications share stands here.
pub mod Protocol
pub mod Outbox
pub mod Planes
pub mod Access
pub mod Requests
pub mod Lifecycle
pub mod Carried
pub mod Surfaces
use codeless_workspace.Base.{
  ℕ, zero, suc, ◌+◌, ◌-◌, ◌*◌, ◌/◌, ◌%◌, ◌^◌, ◌≤◌, ◌<◌, min, max, String, ◌≡◌, refl, sym, ap, ◌∙◌,
  ◌≢◌, ◌↔◌, ◌⊎◌, inl, inr, Bool, true, false, not, ◌&&◌, ◌||◌, Option, none, some, List, [], ◌∷◌,
  ◌++◌, map, reverse, arith, ltb, leb, ◌==◌, if◌then◌else◌, Bool-cases, Option-cases, Text, codes,
  ◌=t◌, =t_iff, =t_refl, =t_sound, All, length, true-ne-false, is_some, is_none, unwrap_or, ◌>>=?◌,
  Lacks, ℤ, pos, take, drop,
}
use codeless_workspace.Gateway.Api.Detail.{Details}
use codeless_workspace.Gateway.Db.CmdOutbox.{new_row}
use codeless_workspace.Gateway.Db.Token.{Digest}
use codeless_workspace.Gateway.Delivery.{Wire}
use codeless_workspace.Gateway.Json.{Json}
use codeless_workspace.Gateway.Schema.{
  Database, fresh_database, Device, User, UserRow, Tunnel, AuditEntry, MessageRow, OutboxRow, Org,
}
use codeless_workspace.Gateway.State.{AppState}
use codeless_workspace.Proto.Msg.{accepted, CmdAck}
use codeless_workspace.Proto.Uuid.{Uuids}
use codeless_workspace.Proto.Zid.{Zid}
use codeless_workspace.Proto.Zid.Canonical.{IsCanonical}

-- Values that are texts: one is encoded as itself, and read as the array of its codes.
abbrev pub single : Text → List Text
single [] = []
single (c ∷ s) = (c ∷ []) ∷ single s

abbrev pub code_of : Text → Option ℤ
code_of (c ∷ []) = some (pos c)
code_of _ = none

-- A text that begins with the length of a key, the key, and its value.
abbrev pub field : Text → Text → Option Text
field [] key = none
field (n ∷ t) key = if take n t =t key then some (drop n t) else none

cut : (key s : Text) → (take (length key) (key ++ s) ≡ key) × (drop (length key) (key ++ s) ≡ s)
cut [] s = (refl, refl)
cut (c ∷ key) s = let (k, v) = cut key s in (ap (λ t. c ∷ t) k, v)

pub field-single :
    (key s other : Text)
    → field (length key ∷ (key ++ s)) other ≡ (if key =t other then some s else none)
field-single key s other = let (k, v) = cut key s in rw (k, v) refl

abbrev pub text_json : Json
text_json = record {
  Value = Text;
  null = [];
  to_vec = λ v. some v;
  from_slice = λ bytes. some bytes;
  from_str = λ s. some s;
  as_array = λ s. some (single s);
  as_i64 = code_of;
  get = field;
  single = λ key s. length key ∷ (key ++ s);
  string = λ s. s;
  from_slice-to_vec = λ v e. sym e;
  get-single = field-single;
  get-null = λ key. refl;
}

-- Ids that are numbers, printed in unary.
abbrev pub unary : ℕ → Text
unary zero = []
unary (suc n) = b'a' ∷ unary n

pub length-unary : (n : ℕ) → length (unary n) ≡ n
length-unary zero = refl
length-unary (suc n) = ap suc (length-unary n)

pub unary-Lacks : (n : ℕ) → Lacks b'/' (unary n)
unary-Lacks zero = tt
unary-Lacks (suc n) = (omega arith, unary-Lacks n)

abbrev pub unary_uuids : Uuids
unary_uuids = record {
  Uuid = ℕ;
  to_string = unary;
  parse_str = λ s. some (length s);
  parse_str-to_string = λ u. ap some (length-unary u);
  to_string-Lacks = unary-Lacks;
}

abbrev pub marking_digest : Digest
marking_digest = record { sha256_hex = λ raw. b'#' ∷ raw }

-- A wire that takes every message; an acknowledgement is the unary id of its command.
abbrev pub open_wire : Wire ℕ Text
open_wire = record {
  encode_cmd = λ e. some e.topic;
  decode_ack = λ bytes. some (record { cmd_id = length bytes; result = accepted; detail = none });
  put = λ ke bytes. true;
}

abbrev pub no_details : Details
no_details = record { render = λ d. [] }

abbrev pub device_zid : Zid
device_zid = record { as_str = codes "ab12" }

pub device_zid-IsCanonical : IsCanonical (codes "ab12")
device_zid-IsCanonical = record {
  at_least = omega arith;
  at_most = omega arith;
  hex = ground arith;
}

pub default-Lacks : Lacks b'/' (codes "default")
default-Lacks = omega arith

abbrev pub device : Device
device = record {
  id = 1;
  org_id = 1;
  zid = codes "ab12";
  label = codes "pump";
  customer_id = none;
  created_at = 0;
  last_seen_at = none;
}

abbrev pub home : Org
home = record { id = 1; slug = codes "default"; name = codes "default"; created_at = 0 }

abbrev pub owner : User
owner = record {
  id = 1;
  org_id = 1;
  name = codes "owner";
  role = codes "owner";
  device_scope = codes "*";
  tunnel_scope = codes "*";
  expires_at = none;
  created_at = 0;
  last_used_at = none;
}

abbrev pub owner_row : UserRow
owner_row = record { user = owner; token_hash = codes "#old" }

abbrev pub queued_row : OutboxRow
queued_row = record {
  id = 1;
  cmd_id = codes "aaa";
  device_id = 1;
  topic = codes "go";
  content_type = codes "application/json";
  payload = codes "x";
  enqueued_at = 5;
  expires_at = 100;
  delivered_at = none;
  ack_at = none;
  ack_result = none;
  ack_detail = none;
  attempts = 0;
  last_error = none;
}

abbrev pub session_entry : AuditEntry
session_entry = record {
  id = 1;
  ts = 3;
  ts_close = some 4;
  user_id = none;
  device_id = some 1;
  tunnel_id = none;
  request_id = none;
  action = codes "tunnel.session";
  peer = some (codes "10.0.0.1");
  bytes_up = none;
  bytes_down = none;
  detail = none;
}

abbrev pub tunnel : Tunnel
tunnel = record {
  id = 1;
  device_id = 1;
  kind = codes "tcp";
  local_port = pos 80;
  public_hostname = none;
  public_port = some (pos 9000);
  enabled = true;
  created_at = 0;
}

abbrev pub message : ℕ → MessageRow
message id = record {
  id = id;
  device_id = 1;
  topic = codes "t";
  ts = pos 9;
  level = none;
  content_type = codes "application/json";
  payload = codes "x";
}

-- One organisation with one device, one owner, one tunnel, one queued command and three events.
abbrev pub gateway_db : Database
gateway_db = record fresh_database {
  orgs = home ∷ [];
  users = owner_row ∷ [];
  devices = device ∷ [];
  tunnels = tunnel ∷ [];
  audit = session_entry ∷ [];
  events = message 1 ∷ message 2 ∷ message 3 ∷ [];
  cmd_outbox = queued_row ∷ [];
}

abbrev pub gateway_state : AppState
gateway_state = record {
  database = gateway_db;
  cmd_notified = false;
  tunnel_events = [];
  rtt_cache = record { inner = []; ttl = 30 };
}
