-- ===== src/Gateway/Db/CmdOutbox/Runs.antt =====
-- Every sequence of outbox operations, in any order.
use codeless_workspace.Base.{ℕ, Option, List, [], ◌∷◌, Text}
use codeless_workspace.Gateway.Schema.{Database}
use codeless_workspace.Gateway.Json.{Json}
use codeless_workspace.Gateway.Db.CmdOutbox.{enqueue, mark_delivered, record_ack, cancel}
use codeless_workspace.Gateway.Db.CmdOutbox.Inv.{
  IsOutbox, enqueue-IsOutbox, mark_delivered-IsOutbox, record_ack-IsOutbox, cancel-IsOutbox,
}

-- The calls that the handlers and the delivery loop make, with their arguments.
pub data OutboxCall (V : Type 0) : Type 0 where
  enqueues : Text → ℕ → Text → Text → V → ℕ → ℕ → OutboxCall V
  delivers : Text → ℕ → OutboxCall V
  acks : Text → Text → Option Text → ℕ → OutboxCall V
  cancels : Text → OutboxCall V

module _ (json : Json) where
  open json use {Value}

  unfoldable pub step : Database → OutboxCall Value → Database
  unfolding enqueue mark_delivered record_ack cancel
  step s (enqueues c d topic ct v t e) = (enqueue json c d topic ct v t e s).1
  step s (delivers c now) = (mark_delivered c now s).1
  step s (acks c result detail now) = (record_ack c result detail now s).1
  step s (cancels c) = (cancel c s).1

  unfoldable pub run : Database → List (OutboxCall Value) → Database
  unfolding step
  run s [] = s
  run s (c ∷ cs) = run (step s c) cs

  pub step-IsOutbox :
      (s : Database) (c : OutboxCall Value) → IsOutbox s.cmd_outbox → IsOutbox (step s c).cmd_outbox
  unfolding step
  step-IsOutbox s (enqueues c d topic ct v t e) h = enqueue-IsOutbox json c d topic ct v t e s h
  step-IsOutbox s (delivers c now) h = mark_delivered-IsOutbox c now s h
  step-IsOutbox s (acks c result detail now) h = record_ack-IsOutbox c result detail now s h
  step-IsOutbox s (cancels c) h = cancel-IsOutbox c s h

  -- From an outbox in order, whatever calls of `enqueue`, `mark_delivered`, `record_ack` and
  -- `cancel` follow, in any order and with any arguments, no device has more than 1000
  -- unacknowledged rows, no command id stands twice, rowids ascend, and every row is sound.
  pub run-IsOutbox :
      (s : Database) (cs : List (OutboxCall Value))
      → IsOutbox s.cmd_outbox
      → IsOutbox (run s cs).cmd_outbox
  unfolding run
  run-IsOutbox s [] h = h
  run-IsOutbox s (c ∷ cs) h = run-IsOutbox (step s c) cs (step-IsOutbox s c h)
