-- ===== src/Examples/Lifecycle.antt =====
-- The lifecycle of a command and the tasks that share the outbox.
use codeless_workspace.Base.{
  ◌≤◌, ◌≡◌, refl, ◌⊎◌, none, List, [], ◌∷◌, arith, Text, codes, count_rows, ◌≢◌,
}
use codeless_workspace.Examples.{
  gateway_state, text_json, gateway_db, unary_uuids, queued_row, no_details, owner, open_wire,
  device_zid,
}
use codeless_workspace.Gateway.Api.Cmd.{SendCmd, send, cancel_handler}
use codeless_workspace.Gateway.Db.CmdOutbox.{CmdRow, row_to_cmd}
use codeless_workspace.Gateway.Db.CmdOutbox.Inv.{IsOutbox}
use codeless_workspace.Gateway.Db.CmdOutbox.Phase.{Moves, phase_of}
use codeless_workspace.Gateway.Db.CmdOutbox.Refines.{run-Moves}
use codeless_workspace.Gateway.Db.CmdOutbox.Runs.{OutboxCall, enqueues, delivers, acks, run}
use codeless_workspace.Gateway.Delivery.Pushes.{goes}
use codeless_workspace.Gateway.Delivery.Tasks.{
  Plane, waits, starts, Turn, push_one, after, pushing, here, due_rows, request, sends, push,
  Pusher,
}
use codeless_workspace.Gateway.Delivery.Tasks.Drains.{fetched-rests, first, still}
use codeless_workspace.Gateway.Delivery.Tasks.Races.{cancel_loses}
use codeless_workspace.Gateway.Delivery.Tasks.Safe.{Reach-InOrder}
use codeless_workspace.Gateway.Delivery.Tasks.Wakeups.{lag, send_wakes, begin}
use codeless_workspace.Gateway.Schema.{fresh_database}
use codeless_workspace.Gateway.State.{AppState}
use codeless_workspace.Proto.Keyexpr.{msg_cmd}
use codeless_workspace.Gateway.Delivery.Pushes

abbrev calls : List (OutboxCall Text)
calls =
    enqueues (codes "a") 1 (codes "go") (codes "text/plain") (codes "x") 5 100
    ∷ delivers (codes "a") 6
    ∷ acks (codes "a") (codes "done") none 7
    ∷ []

none-IsOutbox : IsOutbox []
unfolding count_rows
none-IsOutbox = record { ascending = tt; distinct = tt; capped = λ d. omega arith; sound = tt }

run-Moves_example :
    Moves
      (codes "a")
      (phase_of fresh_database (codes "a"))
      calls
      (phase_of (run text_json fresh_database calls) (codes "a"))
run-Moves_example = run-Moves text_json (codes "a") fresh_database calls none-IsOutbox

abbrev idle_state : AppState
idle_state = record gateway_state { database = record gateway_db { cmd_outbox = [] } }

abbrev idle : Plane Text
idle = record { app = idle_state; pusher = waits; published = [] }

abbrev order : SendCmd Text
order = record { payload = codes "x"; expires_in_ms = none; content_type = none }

abbrev asked : Plane Text
asked = record idle {
  app = (send text_json no_details owner 1 (codes "go") order (codes "b") 5 0 idle_state).1;
}

Reach-InOrder_example : IsOutbox asked.app.database.cmd_outbox
Reach-InOrder_example =
    Reach-InOrder text_json unary_uuids no_details open_wire {p = idle} {q = asked} none-IsOutbox
      (after here (request (sends owner 1 (codes "go") order (codes "b") 5 0)))

send_wakes_example :
    (0 ≤ 1)
    × ((asked.pusher ≡ starts)
        ⊎ ((r : Plane Text) × Turn text_json unary_uuids no_details open_wire asked r))
unfolding lag send
send_wakes_example =
    send_wakes text_json unary_uuids no_details open_wire owner 1 (codes "go") order (codes "b") 5 0
      idle {q = asked} refl begin

abbrev begun : Plane Text
begun = record { app = gateway_state; pusher = starts; published = [] }

abbrev row : CmdRow Text
row = row_to_cmd text_json 6 queued_row

-- The pusher once it has fetched its rows.
abbrev fetched : Plane Text
fetched = record begun {
  pusher = pushing (due_rows text_json unary_uuids no_details open_wire 6 begun);
}

pushing-waits : {V : Type 0} {rows : List (CmdRow V)} → Pusher.pushing rows ≢ waits
pushing-waits e = cc

fetched-rests_example :
    (push_one text_json unary_uuids no_details open_wire row [] 7 fetched).published
    ≡ (msg_cmd (codes "default") device_zid (codes "go"), codes "go") ∷ []
unfolding due_rows goes Pushes.sends row_to_cmd
fetched-rests_example =
    (fetched-rests text_json unary_uuids no_details open_wire begun
      (push_one text_json unary_uuids no_details open_wire row [] 7 fetched) 6 1 refl
      (first pushing-waits (push row [] 7 refl) (still _))).1

cancel_loses_example :
    (q : Plane Text) × Turn text_json unary_uuids no_details open_wire
      (record begun {
        app = (cancel_handler text_json no_details owner (codes "aaa") 7 0 gateway_state).1;
        pusher = pushing (row ∷ []);
      })
      q
    × (q.published ≡ (msg_cmd (codes "default") device_zid (codes "go"), codes "go") ∷ [])
unfolding goes row_to_cmd cancel_handler
cancel_loses_example =
    (cancel_loses text_json unary_uuids no_details open_wire
      (record begun { pusher = pushing (row ∷ []) }) row [] 8
      (msg_cmd (codes "default") device_zid (codes "go"), codes "go") owner 7 0 refl refl refl).2
