-- ===== src/Proto/Msg.antt =====
-- hackline/crates/hackline-proto/src/msg.rs. Ids are of the type `U` and JSON
-- values of the type `V`; fresh ids and the clock are arguments.
pub mod Levels
use codeless_workspace.Base.{
  ℕ, zero, suc, ◌+◌, ◌-◌, ◌*◌, ◌/◌, ◌%◌, ◌^◌, ◌≤◌, ◌<◌, min, max, String, ◌≡◌, refl, sym, ap, ◌∙◌,
  ◌≢◌, ◌↔◌, ◌⊎◌, inl, inr, Bool, true, false, not, ◌&&◌, ◌||◌, Option, none, some, List, [], ◌∷◌,
  ◌++◌, map, reverse, arith, ltb, leb, ◌==◌, if◌then◌else◌, Bool-cases, Option-cases, Text, codes,
  ◌=t◌, =t_iff, =t_refl, =t_sound, All, length, true-ne-false, is_some, is_none, unwrap_or, ℤ,
  ◌>>=?◌,
}

unfoldable pub content_type_json : Text
content_type_json = codes "application/json"

-- `BTreeMap<String, String>`: an association list in which a key stands once.
abbrev pub Headers : Type 0
Headers = List (Text × Text)

unfoldable pub get_header : Text → Headers → Option Text
get_header k [] = none
get_header k ((j, v) ∷ hs) = let rest = get_header k hs in if j =t k then some v else rest

unfoldable pub insert_header : Text → Text → Headers → Headers
insert_header k v [] = (k, v) ∷ []
insert_header k v ((j, w) ∷ hs) =
    let rest = insert_header k v hs in if j =t k then (k, v) ∷ hs else (j, w) ∷ rest

pub record MsgEnvelope (U V : Type 0) : Type 0 where
  pub id : U
  pub ts : ℤ
  pub content_type : Text
  pub headers : Headers
  pub payload : V

unfoldable pub header_log_level : Text
header_log_level = codes "level"

pub data LogLevel : Type 0 where
  trace debug info warn error : LogLevel

unfoldable pub log_level_str : LogLevel → Text
log_level_str trace = codes "trace"
log_level_str debug = codes "debug"
log_level_str info = codes "info"
log_level_str warn = codes "warn"
log_level_str error = codes "error"

unfoldable pub parse_log_level : Text → Option LogLevel
unfolding ◌=t◌
parse_log_level s =
    if s =t codes "trace"
    then some trace
    else if s =t codes "debug"
    then some debug
    else if s =t codes "info"
    then some info
    else if s =t codes "warn"
    then some warn
    else if s =t codes "error"
    then some error
    else none

-- `LogLevel::default`
unfoldable pub default_log_level : LogLevel
default_log_level = info

module _ {U V : Type 0} where
  unfoldable pub new_event : U → ℤ → V → MsgEnvelope U V
  unfolding content_type_json
  new_event fresh now_ms payload = record {
    id = fresh;
    ts = now_ms;
    content_type = content_type_json;
    headers = [];
    payload = payload;
  }

  unfoldable pub new_log : U → ℤ → LogLevel → V → MsgEnvelope U V
  unfolding new_event insert_header header_log_level log_level_str
  new_log fresh now_ms level payload =
      let e = new_event fresh now_ms payload in
      record e { headers = insert_header header_log_level (log_level_str level) e.headers }

  unfoldable pub log_level : MsgEnvelope U V → LogLevel
  unfolding get_header header_log_level parse_log_level default_log_level
  log_level e =
      unwrap_or (get_header header_log_level e.headers >>=? parse_log_level) default_log_level

-- What a query of `serve_api` carries, and its reply.
pub record ApiRequest (V : Type 0) : Type 0 where
  pub content_type : Text
  pub payload : V

pub record ApiReply (V : Type 0) : Type 0 where
  pub content_type : Text
  pub payload : V

-- `ApiReply::json`
unfoldable pub json_reply : {V : Type 0} → V → ApiReply V
json_reply payload = record { content_type = content_type_json; payload = payload }

pub record CmdEnvelope (U V : Type 0) : Type 0 where
  pub cmd_id : U
  pub topic : Text
  pub enqueued_at : ℕ
  pub expires_at : ℕ
  pub envelope : MsgEnvelope U V

pub data CmdResult : Type 0 where
  accepted rejected failed done : CmdResult

unfoldable pub cmd_result_str : CmdResult → Text
cmd_result_str accepted = codes "accepted"
cmd_result_str rejected = codes "rejected"
cmd_result_str failed = codes "failed"
cmd_result_str done = codes "done"

unfoldable pub parse_cmd_result : Text → Option CmdResult
unfolding ◌=t◌
parse_cmd_result s =
    if s =t codes "accepted"
    then some accepted
    else if s =t codes "rejected"
    then some rejected
    else if s =t codes "failed"
    then some failed
    else if s =t codes "done"
    then some done
    else none

pub record CmdAck (U : Type 0) : Type 0 where
  pub cmd_id : U
  pub result : CmdResult
  pub detail : Option Text
