-- ===== src/Examples/Planes.antt =====
-- Messages, liveliness, acknowledgements, the cache and the tunnels.
use codeless_workspace.Base.{
  ℕ, ◌≡◌, refl, true, Option, none, some, [], ◌∷◌, ◌++◌, arith, Text, codes, pos, find_row, select,
  fresh_rowid, All,
}
use codeless_workspace.Examples.{
  text_json, unary_uuids, open_wire, device_zid, device_zid-IsCanonical, default-Lacks, gateway_db,
  message,
}
use codeless_workspace.Gateway.Db.Audit.Tenants.{entry_of}
use codeless_workspace.Gateway.Db.Messages.{of_device, prune, list_events, EventRow}
use codeless_workspace.Gateway.Db.Messages.Ring.{prune_lem}
use codeless_workspace.Gateway.Db.Messages.Visible.{list_events-IsOwn}
use codeless_workspace.Gateway.Delivery.{handle_ack}
use codeless_workspace.Gateway.Delivery.Acked.{handle_ack-msg_cmd_ack, handle_ack_any_sender}
use codeless_workspace.Gateway.Error.{ok, or_empty}
use codeless_workspace.Gateway.FanIn.Isolation.{IsOwn, handle_sample-IsOwn}
use codeless_workspace.Gateway.Tunnel.HttpRouter.{read_host, trim, after_host}
use codeless_workspace.Gateway.Tunnel.HttpRouter.Cut.{parse_host_header_lem}
use codeless_workspace.Gateway.Tunnel.Session.{run_bridged_connection}
use codeless_workspace.Gateway.Tunnel.Session.Bookends.{run_bridged_connection_lem, opened}
use codeless_workspace.Proto.Keyexpr.{event, msg_cmd_ack, parse_msg_keyexpr}
use codeless_workspace.Proto.Msg.{accepted, MsgEnvelope}
use codeless_workspace.Proto.Zid.{Zid}
use codeless_workspace.Gateway.Db.Messages.Visible
use codeless_workspace.Gateway.FanIn

prune_lem_example : select (of_device 1) (prune 1 2 gateway_db.events) ≡ message 2 ∷ message 3 ∷ []
unfolding select
prune_lem_example =
    (prune_lem 1 2 gateway_db.events
      ((omega arith, (omega arith, tt)), ((omega arith, tt), (tt, tt)))).0

list_events-IsOwn_example :
    All
      (λ (r : EventRow Text). Visible.IsOwn gateway_db 1 none r.device_id)
      (or_empty (list_events (λ _ _. true) text_json 1 none none none none (pos 2) gateway_db).0)
list_events-IsOwn_example =
    (list_events-IsOwn (λ _ _. true) text_json 1 none none none none none (pos 2) gateway_db).1

-- A decoder that takes every payload as it is.
abbrev raw_event : Text → Option (MsgEnvelope ℕ Text)
raw_event bytes = some (record {
  id = 0;
  ts = pos 9;
  content_type = codes "text/plain";
  headers = [];
  payload = bytes;
})

handle_sample-IsOwn_example :
    (slug : Text) × (zid : Zid) × (topic : Text) × (parse_msg_keyexpr
        (codes "hackline/default/ab12/msg/event/t")
      ≡ some (slug, zid, event, topic))
    × IsOwn gateway_db slug zid.as_str (
        FanIn.event_of text_json {U = ℕ} 1 1
          (codes "t")
          (record {
            id = 0;
            ts = pos 9;
            content_type = codes "text/plain";
            headers = [];
            payload = codes "x";
          })
          4)
unfolding FanIn.handle_sample FanIn.event_of parse_msg_keyexpr
handle_sample-IsOwn_example =
    handle_sample-IsOwn text_json raw_event event (codes "hackline/default/ab12/msg/event/t")
      (codes "x") gateway_db
      (FanIn.event_of text_json {U = ℕ} 1 1 (codes "t")
        (record {
          id = 0;
          ts = pos 9;
          content_type = codes "text/plain";
          headers = [];
          payload = codes "x";
        })
        4)
      refl

handle_ack-msg_cmd_ack_example :
    (handle_ack text_json unary_uuids open_wire
      (msg_cmd_ack unary_uuids (codes "default") device_zid 3)
      (codes "xxx")
      8
      gateway_db).0
    ≡ ok tt
handle_ack-msg_cmd_ack_example =
    ((handle_ack-msg_cmd_ack text_json unary_uuids open_wire (codes "default") device_zid
        default-Lacks device_zid-IsCanonical 3
        (record { cmd_id = 3; result = accepted; detail = none }) (codes "xxx") 8 gateway_db refl).0
      refl).0

handle_ack_any_sender_example :
    handle_ack text_json unary_uuids open_wire
      (msg_cmd_ack unary_uuids (codes "default") device_zid 3)
      (codes "xxx")
      8
      gateway_db
    ≡ handle_ack text_json unary_uuids open_wire
        (msg_cmd_ack unary_uuids (codes "other") device_zid 3)
        (codes "xxx")
        8
        gateway_db
handle_ack_any_sender_example =
    handle_ack_any_sender text_json unary_uuids open_wire (codes "default") device_zid default-Lacks
      device_zid-IsCanonical (codes "other") device_zid (omega arith) device_zid-IsCanonical 3
      (codes "xxx") 8 gateway_db

run_bridged_connection_lem_example :
    entry_of
      (run_bridged_connection 1 1 (codes "r") none 7000 (λ s. s) (some (10, 20)) 9 9500 gateway_db)
      2
    ≡ some (record (opened gateway_db 1 1 (codes "r") none 7000) {
      ts_close = some 9;
      bytes_up = some (pos 10);
      bytes_down = some (pos 20);
    })
unfolding find_row fresh_rowid
run_bridged_connection_lem_example =
    (run_bridged_connection_lem 1 1 (codes "r") none 7000 gateway_db refl refl (λ s. s)
      (some (10, 20)) 9 9500 (opened gateway_db 1 1 (codes "r") none 7000) refl).1

parse_host_header_lem_example :
    read_host []
      ((codes "G" ++ (13 ∷ 10 ∷ (codes "Host:" ++ codes "dev"))) ∷ codes "ice.example" ∷ [])
    ≡ ok (codes "dev", codes "G" ++ (13 ∷ 10 ∷ (codes "Host:" ++ codes "dev")))
unfolding trim after_host
parse_host_header_lem_example =
    (parse_host_header_lem b'G' [] (codes "dev") (omega arith) refl (omega arith) (omega arith)).2
      (codes "ice.example" ∷ [])
