-- ===== src/Examples/Carried.antt =====
-- The bytes of a stream, its opening, and what an agent shows.
use codeless_workspace.Agent.Diag.{ConnectionEvent, recent_connections, new_state}
use codeless_workspace.Agent.Diag.Recent.{push_all, recent_connections-push_all}
use codeless_workspace.Agent.Startup.{Session, AgentConfig, Addresses, main}
use codeless_workspace.Agent.Startup.Exposed.{IsAllowed, main-All}
use codeless_workspace.Base.{
  ℕ, ◌≡◌, refl, ap, ◌∙◌, Bool, true, false, Option, none, some, List, [], ◌∷◌, ◌++◌, ltb, ◌==◌,
  Text, codes, All, drop, arith,
}
use codeless_workspace.Core.Bridge.{
  pump_up, pump_down, read, failed, BridgeResult, BridgeBytes, done, stopped, rejected,
}
use codeless_workspace.Core.Bridge.Bytes.{
  is_data, is_end, concat, received, reads_of, pump_down-pump_up,
}
use codeless_workspace.Core.Bridge.Handshake.{initiate_bridge, unreachable}
use codeless_workspace.Core.Bridge.Handshake.Keys.{asks, initiate_bridge-accept_bridge}
use codeless_workspace.Examples.{unary_uuids, device_zid}
use codeless_workspace.Gateway.Tunnel.HttpRouter.{read_host, trim, after_host}
use codeless_workspace.Gateway.Tunnel.HttpRouter.Bridged.{published_with}
use codeless_workspace.Gateway.Tunnel.HttpRouter.Forwarded.{read_host-forwards}
use codeless_workspace.Proto.Connect.{ConnectWire, ConnectRequest, ConnectAck}

pump_down-pump_up_example :
    (pump_down (
        received (
          drop 1 (
            (pump_up (reads_of (codes "ab" ∷ codes "c" ∷ []) ++ (failed, true) ∷ [])).0
            ++ codes "late" ∷ [])))
      ≡ (codes "c" ∷ [], 1))
    × ((pump_up (reads_of (codes "ab" ∷ codes "c" ∷ []) ++ (failed, true) ∷ [])).1 ≡ 3)
unfolding is_data is_end concat
pump_down-pump_up_example =
    pump_down-pump_up (codes "ab" ∷ codes "c" ∷ []) (refl, (refl, tt)) failed [] (codes "late" ∷ [])
      1 refl (omega arith)

abbrev code : Option Text → Text
code none = []
code (some t) = b'+' ∷ t

abbrev decode : Text → Option Text
decode [] = none
decode (c ∷ t) = some t

decode-code : (o : Option Text) → decode (code o) ≡ o
decode-code none = refl
decode-code (some t) = refl

abbrev code_bool : Bool → ℕ
code_bool true = 1
code_bool false = 0

decode_bool-code_bool : (b : Bool) → ltb 0 (code_bool b) ≡ b
decode_bool-code_bool true = refl
decode_bool-code_bool false = refl

abbrev request_from : Text → Option (ConnectRequest ℕ)
request_from [] = none
request_from (n ∷ t) = some (record { request_id = n; peer = decode t })

abbrev ack_from : Text → Option (ConnectAck ℕ)
ack_from (n ∷ b ∷ t) = some (record { request_id = n; accepts = ltb 0 b; message = decode t })
ack_from _ = none

-- Messages of the exchange as an id, a mark, and a text.
abbrev connect_wire : ConnectWire ℕ
connect_wire = record {
  encode_request = λ r. r.request_id ∷ code r.peer;
  decode_request = request_from;
  encode_ack = λ a. a.request_id ∷ code_bool a.accepts ∷ code a.message;
  decode_ack = ack_from;
  decode_request-encode_request = λ r.
      ap (λ (p : Option Text). some (record { request_id = r.request_id; peer = p }))
        (decode-code r.peer);
  decode_ack-encode_ack = λ a.
      ap
        (λ (b : Bool).
          some
            (record { request_id = a.request_id; accepts = b; message = decode (code a.message) }))
        (decode_bool-code_bool a.accepts)
      ∙ ap
          (λ (m : Option Text).
            some (record { request_id = a.request_id; accepts = a.accepts; message = m }))
          (decode-code a.message);
}

abbrev quiet_bridge : Text → Text → BridgeResult BridgeBytes
quiet_bridge subscribe_ke publish_ke = done (record { up = 0; down = 0 })

initiate_bridge-accept_bridge_example :
    initiate_bridge unary_uuids connect_wire quiet_bridge (codes "default") device_zid 80 none 3 (
      asks unary_uuids connect_wire quiet_bridge
        (codes "default")
        device_zid
        80
        (unreachable (codes "refused"))
        true)
    ≡ stopped (rejected (codes "tcp connect failed: refused"))
initiate_bridge-accept_bridge_example =
    (initiate_bridge-accept_bridge unary_uuids connect_wire quiet_bridge quiet_bridge
      (codes "default") device_zid 80 none 3 (codes "refused")).2

abbrev prefix_of_request : List ℕ
prefix_of_request = codes "G" ++ (13 ∷ 10 ∷ codes "Host:a")

read_host-forwards_example :
    (used : List (List ℕ)) × (rest : List (List ℕ)) × (prefix_of_request ∷ codes "bc" ∷ []
      ≡ used ++ rest)
    × (prefix_of_request ≡ concat used)
    × (prefix_of_request ++ concat rest ≡ codes "G" ++ (13 ∷ 10 ∷ codes "Host:abc"))
    × ((pump_down (
          received (
            drop 1 (
              published_with prefix_of_request (record {
                ends = record {
                  publisher_declared = true;
                  subscriber_declared = true;
                  reads = reads_of rest ++ (read [], true) ∷ [];
                  samples = [];
                };
                prefix_sent = true;
              })
              ++ [])))).0
        ≡ rest)
unfolding read_host trim after_host is_data is_end concat
read_host-forwards_example =
    read_host-forwards (prefix_of_request ∷ codes "bc" ∷ []) (codes "a") prefix_of_request refl
      (refl, (refl, tt)) (read []) [] [] [] 1 refl (omega arith)

-- Addresses as texts, those that begin with 1 on the loopback.
abbrev text_addresses : Addresses
text_addresses = record {
  SocketAddr = Text;
  parse = λ s. some s;
  is_loopback = λ s. elim s as (λ _. Bool) [ [] ↦ false | c ∷ t ↦ c == b'1' ];
}

abbrev agent_config : AgentConfig
agent_config = record {
  zid = codes "ab12";
  org = codes "default";
  allowed_ports = 80 ∷ [];
  label = none;
  mode = codes "peer";
  listen = [];
  endpoints = [];
  level = codes "info";
  format = codes "pretty";
  diag_enabled = true;
  diag_bind = codes "127.0.0.1:9999";
}

abbrev session : Session
session = record { configured = true; opened = true; token_declared = true; declared = λ p. true }

main-All_example :
    All (IsAllowed text_addresses agent_config) (main text_addresses (some agent_config) session).0
main-All_example = main-All text_addresses agent_config session

abbrev event_at : ℕ → ConnectionEvent
event_at at = record {
  at_unix = at;
  port = 80;
  request_id = codes "r";
  peer = none;
  outcome = codes "ok";
}

recent_connections-push_all_example :
    recent_connections (push_all (event_at 1 ∷ event_at 2 ∷ []) new_state)
    ≡ event_at 2 ∷ event_at 1 ∷ []
recent_connections-push_all_example = recent_connections-push_all (event_at 1 ∷ event_at 2 ∷ [])
