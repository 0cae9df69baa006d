-- ===== src/Examples/Surfaces.antt =====
-- The handlers of the other endpoints, and the tunnel manager.
use codeless_workspace.Agent.Info.{serve_info}
use codeless_workspace.Base.{
  ℕ, ◌≡◌, refl, ◌↔◌, inr, true, none, some, List, [], ◌∷◌, Text, codes, find_row, pos, Option, ap,
  length, take, some_inj, ◌++◌, drop, sym, ◌∙◌,
}
use codeless_workspace.Examples.{
  owner, gateway_state, gateway_db, device, home, device_zid, tunnel, text_json, no_details,
  marking_digest, cut,
}
use codeless_workspace.Gateway.Api.Calls.{ApiCallBody, Queries, replied, call, answered}
use codeless_workspace.Gateway.Api.Calls.Outcomes.{outcome, call_lem}
use codeless_workspace.Gateway.Api.Claim.{ClaimRequest, post}
use codeless_workspace.Gateway.Api.Claim.Login.{post-authenticates}
use codeless_workspace.Gateway.Api.Cmd.{is_empty}
use codeless_workspace.Gateway.Api.Glob.{glob_bytes}
use codeless_workspace.Gateway.Api.Glob.Matches.{Matches, glob_bytes_iff}
use codeless_workspace.Gateway.Api.Info.{info_handler, answered_info}
use codeless_workspace.Gateway.Api.Info.Answers.{reaches, info_handler-serve_info}
use codeless_workspace.Gateway.Api.Streams.{Received, StreamQuery, message, events_stream}
use codeless_workspace.Gateway.Api.Streams.Isolation.{Shown, events_stream-Shown}
use codeless_workspace.Gateway.Auth.Middleware.{from_request_parts}
use codeless_workspace.Gateway.Auth.Scope.{check_device}
use codeless_workspace.Gateway.Db.Claim.{install}
use codeless_workspace.Gateway.Db.Token.{hashes_match}
use codeless_workspace.Gateway.Error.{ok, Result}
use codeless_workspace.Gateway.FanIn.{event_row}
use codeless_workspace.Gateway.Migrations.Once.{run-run}
use codeless_workspace.Gateway.Schema.{Database, fresh_database, User}
use codeless_workspace.Gateway.Schema.Inserts.{insert_user}
use codeless_workspace.Gateway.Tunnel.Manager.{run, started}
use codeless_workspace.Gateway.Tunnel.Manager.Restarts.{hot_start-started}
use codeless_workspace.Proto.AgentInfo.{AgentInfo, InfoWire}
use codeless_workspace.Proto.Zid.{new}
use codeless_workspace.Gateway.Api.Tunnels
use codeless_workspace.Gateway.Migrations

glob_bytes_iff_example :
    (glob_bytes (codes "a.*") (codes "a.b.c") ≡ true) ↔ Matches (codes "a.*") (codes "a.b.c")
glob_bytes_iff_example = glob_bytes_iff (codes "a.*") (codes "a.b.c")

abbrev event_of_org : ℕ → Received Text
event_of_org org_id = message (
    event_row org_id (record {
      id = 1;
      device_id = 1;
      topic = codes "a.b";
      ts = pos 9;
      content_type = codes "text/plain";
      payload = codes "x";
    }))

abbrev everything : StreamQuery
everything = record { device = none; topic = some (codes "a.*"); level = none }

events_stream-Shown_example :
    Shown
      (λ r. some r.payload)
      (λ r. some r.payload)
      owner
      everything
      (event_of_org 2 ∷ event_of_org 1 ∷ [])
      (events_stream
        (λ r. some r.payload)
        (λ r. some r.payload)
        owner
        everything
        (event_of_org 2 ∷ event_of_org 1 ∷ []))
events_stream-Shown_example =
    events_stream-Shown (λ r. some r.payload) (λ r. some r.payload) owner everything
      (event_of_org 2 ∷ event_of_org 1 ∷ [])

abbrev echo : Queries Text
echo = record {
  encode_request = λ r. some r.payload;
  decode_reply = λ bytes. some (record { content_type = codes "text/plain"; payload = bytes });
  ask = λ ke bytes timeout. replied (some bytes);
}

abbrev body : ApiCallBody Text
body = record { payload = codes "x"; timeout_ms = none; content_type = none }

call_lem_example :
    (call text_json no_details echo owner 1 (codes "go") body 0 gateway_state).0
    ≡ ok (answered (codes "text/plain") (codes "x"))
unfolding check_device find_row is_empty outcome new
call_lem_example =
    (call_lem text_json no_details echo owner gateway_state device home device_zid (codes "go") body
      (codes "x") 0 refl refl refl refl refl refl refl).0

-- A gateway that nobody has claimed yet.
abbrev unclaimed : Database
unclaimed = record fresh_database { claim_pending = some (codes "#claim", 3) }

abbrev claim_body : ClaimRequest
claim_body = record { token = codes "claim"; name = codes "owner"; org = none }

post-authenticates_example :
    (u : User) × ((from_request_parts marking_digest
        (some (codes "Bearer new"))
        9
        (post marking_digest claim_body (codes "new") 5 unclaimed).1).0
      ≡ inr u)
    × (u.id ≡ 1)
    × (u.role ≡ codes "owner")
unfolding post hashes_match install insert_user
post-authenticates_example =
    post-authenticates marking_digest claim_body (codes "new") 5 unclaimed
      {r = record { user_id = 1; token = codes "new"; org = codes "default" }} refl refl 9

hot_start-started_example :
    run
      (record gateway_db { tunnels = [] })
      (Tunnels.hot_start 1 tunnel (some (pos 9000)) gateway_state).tunnel_events
    ≡ started gateway_db
unfolding find_row
hot_start-started_example =
    hot_start-started 1 tunnel (pos 9000) gateway_state device home refl refl refl refl refl refl []
      refl refl

abbrev encode_info : AgentInfo → Text
encode_info i =
    i.uptime_s ∷ length i.allowed_ports ∷ length i.zid ∷ (i.allowed_ports ++ (i.zid ++ i.version))

abbrev decode_info : Text → Option AgentInfo
decode_info (u ∷ n ∷ z ∷ t) = some (record {
  zid = take z (drop n t);
  version = drop z (drop n t);
  allowed_ports = take n t;
  uptime_s = u;
})
decode_info _ = none

decode_info-encode_info : (i : AgentInfo) → decode_info (encode_info i) ≡ some i
decode_info-encode_info i =
    let (p, q) = cut i.allowed_ports (i.zid ++ i.version) in
    let (r, s) = cut i.zid i.version in rw (p, q, r, s) refl

abbrev info_wire : InfoWire
info_wire = record {
  encode = λ i. some (encode_info i);
  decode = decode_info;
  decode-encode = λ i e. ap decode_info (some_inj (sym e)) ∙ decode_info-encode_info i;
}

abbrev agent_says : AgentInfo
agent_says = record {
  zid = codes "ab12";
  version = codes "1";
  allowed_ports = 80 ∷ [];
  uptime_s = 7;
}

info_handler-serve_info_example :
    info_handler info_wire
      (reaches (serve_info info_wire (codes "default") device_zid (codes "1") (80 ∷ []) 7))
      owner
      1
      gateway_db
    ≡ (ok (answered_info agent_says), gateway_db)
unfolding find_row new
info_handler-serve_info_example =
    info_handler-serve_info info_wire owner 1 device home device_zid (codes "1") (80 ∷ []) 7
      (encode_info agent_says) gateway_db refl refl refl refl

-- Batches that write their version down.
abbrev noted : ℕ → List ℕ → Result (Unit {0}) × List ℕ
noted version tables = (ok tt, version ∷ tables)

run-run_example :
    Migrations.run noted 5 (Migrations.run noted 3 (record { tables = []; applied = [] })).1
    ≡ (ok tt, (Migrations.run noted 3 (record { tables = []; applied = [] })).1)
unfolding Migrations.run Migrations.run_all Migrations.apply_one Migrations.is_applied
    Migrations.record_applied
run-run_example = run-run noted 3 5 (record { tables = []; applied = [] }) refl
