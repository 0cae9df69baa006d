-- ===== src/Proto/Keyexpr.antt =====
-- hackline/crates/hackline-proto/src/keyexpr.rs: the builders and the parsers of key expressions.
pub mod Segments
pub mod RoundTrip
pub mod Tenants
use codeless_workspace.Base.{
  Text, codes, split, join, replace, ◌=t◌, ◌>>=?◌ as ◌>>=◌, ℕ, zero, suc, ◌+◌, ◌/◌, ◌%◌, ltb,
  String, List, Option, [], ◌++◌, some, ◌∷◌, if◌then◌else◌, none,
}
use codeless_workspace.Proto.Zid.{Zid, to_option}
use codeless_workspace.Proto.Zid
use codeless_workspace.Proto.Uuid.{Uuids}

unfoldable pub digits : ℕ → ℕ → Text
digits zero n = []
digits (suc f) n =
    let more = digits f (n / 10) in
    if ltb n 10 then (n + b'0') ∷ [] else more ++ (n % 10 + b'0') ∷ []

-- `{port}` of a `u16`, which has at most five digits
unfoldable pub show_u16 : ℕ → Text
unfolding digits
show_u16 n = digits 5 n

-- "hackline/{org}/{zid}/" and what follows it
unfoldable pub under : Text → Zid → Text → Text
under org zid rest = codes "hackline/" ++ (org ++ (b'/' ∷ (zid.as_str ++ (b'/' ∷ rest))))

pub connect : Text → Zid → ℕ → Text
unfolding under show_u16
connect org zid port = under org zid (codes "tcp/" ++ (show_u16 port ++ codes "/connect"))

pub info : Text → Zid → Text
unfolding under
info org zid = under org zid (codes "info")

pub health : Text → Zid → Text
unfolding under
health org zid = under org zid (codes "health")

module _ (uuids : Uuids) where
  open uuids use {Uuid, to_string}

  pub stream_gw : Text → Zid → Uuid → Text
  unfolding under
  stream_gw org zid request_id =
      under org zid (codes "stream/" ++ (to_string request_id ++ codes "/gw"))

  pub stream_dev : Text → Zid → Uuid → Text
  unfolding under
  stream_dev org zid request_id =
      under org zid (codes "stream/" ++ (to_string request_id ++ codes "/dev"))

  pub msg_cmd_ack : Text → Zid → Uuid → Text
  unfolding under
  msg_cmd_ack org zid cmd_id = under org zid (codes "msg/cmd-ack/" ++ to_string cmd_id)

-- `topic.replace('.', "/")`
unfoldable pub topic_to_keyexpr_suffix : Text → Text
unfolding replace
topic_to_keyexpr_suffix topic = replace b'.' b'/' topic

pub msg_event : Text → Zid → Text → Text
unfolding under topic_to_keyexpr_suffix
msg_event org zid topic = under org zid (codes "msg/event/" ++ topic_to_keyexpr_suffix topic)

pub msg_log : Text → Zid → Text → Text
unfolding under topic_to_keyexpr_suffix
msg_log org zid topic = under org zid (codes "msg/log/" ++ topic_to_keyexpr_suffix topic)

pub msg_cmd : Text → Zid → Text → Text
unfolding under topic_to_keyexpr_suffix
msg_cmd org zid topic = under org zid (codes "msg/cmd/" ++ topic_to_keyexpr_suffix topic)

pub msg_cmd_sub : Text → Zid → Text → Text
unfolding msg_cmd
msg_cmd_sub org zid topic = msg_cmd org zid topic

pub msg_api : Text → Zid → Text → Text
unfolding under topic_to_keyexpr_suffix
msg_api org zid topic = under org zid (codes "msg/api/" ++ topic_to_keyexpr_suffix topic)

-- `parts.next()?`
next : List Text → Option (Text × List Text)
next [] = none
next (s ∷ parts) = some (s, parts)

-- `if parts.next()? != word { return None; }`, giving the parts that are left
expect : String → List Text → Option (List Text)
unfolding next ◌=t◌
expect word parts = do (s, rest) ← next parts; if s =t codes word then some rest else none

-- `if parts.next().is_some() { return None; }`
finish : List Text → Option (Unit {0})
finish [] = some tt
finish (s ∷ parts) = none

unfoldable pub parse_health_keyexpr : Text → Option (Text × Zid)
unfolding split expect next finish Zid.new
parse_health_keyexpr ke = do
  parts ← expect "hackline" (split b'/' ke)
  (org, parts) ← next parts
  (zid_raw, parts) ← next parts
  parts ← expect "health" parts
  _ ← finish parts
  zid ← to_option (Zid.new zid_raw)
  some (org, zid)

module _ (uuids : Uuids) where
  open uuids use {Uuid, parse_str}

  unfoldable pub parse_msg_cmd_ack_keyexpr : Text → Option (Text × Zid × Uuid)
  unfolding split expect next finish Zid.new
  parse_msg_cmd_ack_keyexpr ke = do
    parts ← expect "hackline" (split b'/' ke)
    (org, parts) ← next parts
    (zid_raw, parts) ← next parts
    parts ← expect "msg" parts
    parts ← expect "cmd-ack" parts
    (cmd_id_raw, parts) ← next parts
    _ ← finish parts
    zid ← to_option (Zid.new zid_raw)
    cmd_id ← parse_str cmd_id_raw
    some (org, zid, cmd_id)

pub data MsgKind : Type 0 where
  event log : MsgKind

kind_of : Text → Option MsgKind
unfolding ◌=t◌
kind_of s = if s =t codes "event" then some event else if s =t codes "log" then some log else none

some_rest : List Text → Option (List Text)
some_rest [] = none
some_rest (s ∷ rest) = some (s ∷ rest)

unfoldable pub parse_msg_keyexpr : Text → Option (Text × Zid × MsgKind × Text)
unfolding split join expect next kind_of some_rest Zid.new
parse_msg_keyexpr ke = do
  parts ← expect "hackline" (split b'/' ke)
  (org, parts) ← next parts
  (zid_raw, parts) ← next parts
  parts ← expect "msg" parts
  (kind_raw, parts) ← next parts
  kind ← kind_of kind_raw
  rest ← some_rest parts
  zid ← to_option (Zid.new zid_raw)
  some (org, zid, kind, join b'.' rest)
