-- ===== src/Examples/Outbox.antt =====
-- The outbox of commands, its delivery and its acknowledgements.
use codeless_workspace.Proto.Keyexpr.{msg_cmd}
use codeless_workspace.Base.{
  ◌≡◌, refl, false, none, some, List, [], ◌∷◌, arith, Text, codes, count_rows, find_row,
  fresh_rowid, select,
}
use codeless_workspace.Examples.{
  text_json, unary_uuids, open_wire, device_zid, gateway_db, queued_row,
}
use codeless_workspace.Gateway.Error.{ok}
use codeless_workspace.Gateway.Schema.{Database, fresh_database}
use codeless_workspace.Gateway.Db.CmdOutbox.{unacked, has_cmd_id, new_row, enqueue, row_to_cmd}
use codeless_workspace.Gateway.Db.CmdOutbox.Inv.{IsOutbox}
use codeless_workspace.Gateway.Db.CmdOutbox.Runs.{
  OutboxCall, enqueues, delivers, acks, cancels, run, run-IsOutbox,
}
use codeless_workspace.Gateway.Db.CmdOutbox.Enqueue.{enqueue_lem, queued}
use codeless_workspace.Gateway.Db.CmdOutbox.Lifecycle.{WasDelivered, run_keeps_delivered}
use codeless_workspace.Gateway.Delivery.{drain_pending}
use codeless_workspace.Gateway.Delivery.Drained.{drain_pending_lem}
use codeless_workspace.Gateway.Delivery.Pushes.{sends, goes, is_due}

abbrev calls : List (OutboxCall Text)
calls =
    enqueues (codes "a") 1 (codes "go") (codes "text/plain") (codes "x") 5 100
    ∷ delivers (codes "a") 6
    ∷ acks (codes "a") (codes "done") none 7
    ∷ []

empty-IsOutbox : IsOutbox []
unfolding count_rows
empty-IsOutbox = record { ascending = tt; distinct = tt; capped = λ d. omega arith; sound = tt }

run-IsOutbox_example : IsOutbox (run text_json fresh_database calls).cmd_outbox
run-IsOutbox_example = run-IsOutbox text_json fresh_database calls empty-IsOutbox

enqueue_lem_example :
    enqueue text_json (codes "b") 1 (codes "go") (codes "text/plain") (codes "x") 5 100 gateway_db
    ≡ (
      ok 2,
      record gateway_db {
        cmd_outbox =
            queued_row
            ∷ queued gateway_db (codes "b") 1 (codes "go") (codes "text/plain") (codes "x") 5 100
            ∷ [];
      },
    )
unfolding count_rows unacked find_row has_cmd_id new_row fresh_rowid
enqueue_lem_example =
    (enqueue_lem text_json (codes "b") 1 (codes "go") (codes "text/plain") (codes "x") (codes "x") 5
        100 gateway_db refl).0
      (omega arith) (omega arith) refl refl

abbrev delivered_db : Database
delivered_db = record gateway_db {
  cmd_outbox = record queued_row { delivered_at = some 6; attempts = 1 } ∷ [];
}

was_delivered : WasDelivered delivered_db (codes "aaa") 6 false
unfolding find_row has_cmd_id
was_delivered = record {
  row = record queued_row { delivered_at = some 6; attempts = 1 };
  found = refl;
  stamp = refl;
  answered = λ h. cc;
}

run_keeps_delivered_example :
    WasDelivered
      (run text_json delivered_db (cancels (codes "aaa") ∷ delivers (codes "aaa") 8 ∷ []))
      (codes "aaa")
      6
      false
run_keeps_delivered_example =
    run_keeps_delivered text_json (codes "aaa") 6 false delivered_db
      (cancels (codes "aaa") ∷ delivers (codes "aaa") 8 ∷ []) was_delivered

drain_pending_lem_example :
    (drain_pending text_json unary_uuids open_wire (λ c. 7) 6 gateway_db).0
    ≡ ok ((msg_cmd (codes "default") device_zid (codes "go"), codes "go") ∷ [])
unfolding sends is_due goes select row_to_cmd
drain_pending_lem_example =
    (drain_pending_lem text_json unary_uuids open_wire (λ c. 7) gateway_db 6 (tt, tt)).0
