-- ===== src/Gateway/Db/CmdOutbox/Refines.antt =====
-- The outbox of db/cmd_outbox.rs implements the lifecycle.
use codeless_workspace.Base.{ℕ, ◌≡◌, refl, ◌≢◌, false, Option, List, [], ◌∷◌, Text, is_none, subst}
use codeless_workspace.Gateway.Db.CmdOutbox.Acks.{acks_move}
use codeless_workspace.Gateway.Db.CmdOutbox.Cancels.{cancels_move}
use codeless_workspace.Gateway.Db.CmdOutbox.Inv.{IsOutbox}
use codeless_workspace.Gateway.Db.CmdOutbox.Moves.{enqueues_move, delivers_move}
use codeless_workspace.Gateway.Db.CmdOutbox.Phase.{
  Move, Moves, phase_of, done, next, Phase, acked, absent, accepted, refused, sent, unsent,
  answered, unanswered, dropped, kept,
}
use codeless_workspace.Gateway.Db.CmdOutbox.Runs.{
  enqueues, delivers, acks, cancels, run, step, OutboxCall, step-IsOutbox,
}
use codeless_workspace.Gateway.Json.{Json}
use codeless_workspace.Gateway.Schema.{Database}
use codeless_workspace.Proto.Msg.{parse_cmd_result}

-- An acknowledgement of the command arrives, with one of the four results, while the command is in
-- the outbox.
pub data WasAcked {V : Type 0} (c : Text) : Phase → List (OutboxCall V) → Type 0 where
  by :
      {p : Phase} {calls : List (OutboxCall V)} (result : Text) (detail : Option Text) (now : ℕ)
      → p ≢ absent
      → is_none (parse_cmd_result result) ≡ false
      → WasAcked c p (acks c result detail now ∷ calls)
  later :
      {p q : Phase} {call : OutboxCall V} {calls : List (OutboxCall V)}
      → Move c p call q
      → WasAcked c q calls
      → WasAcked c p (call ∷ calls)

-- What moves is not acknowledged by itself.
Moves-WasAcked :
    {V : Type 0} (c : Text) {p : Phase} {calls : List (OutboxCall V)}
    → Moves c p calls acked
    → p ≢ acked
    → WasAcked c p calls
Moves-WasAcked c (done p) ne = absurd (ne refl)
Moves-WasAcked c (next (accepted d topic ct v t e) ms) ne =
    later (accepted d topic ct v t e) (Moves-WasAcked c ms (λ e. cc))
Moves-WasAcked c (next (refused p c' d topic ct v t e) ms) ne =
    later (refused p c' d topic ct v t e) (Moves-WasAcked c ms ne)
Moves-WasAcked c (next (sent now) ms) ne = later (sent now) (Moves-WasAcked c ms (λ e. cc))
Moves-WasAcked c (next (unsent p c' now h) ms) ne =
    later (unsent p c' now h) (Moves-WasAcked c ms ne)
Moves-WasAcked c (next (answered p result detail now there valid) ms) ne =
    by result detail now there valid
Moves-WasAcked c (next (unanswered p c' result detail now h) ms) ne =
    later (unanswered p c' result detail now h) (Moves-WasAcked c ms ne)
Moves-WasAcked c (next dropped ms) ne = later dropped (Moves-WasAcked c ms (λ e. cc))
Moves-WasAcked c (next (kept p c' h) ms) ne = later (kept p c' h) (Moves-WasAcked c ms ne)

module _ (json : Json) where
  open json use {Value}

  step_move :
      (c : Text) (s : Database) (call : OutboxCall Value)
      → IsOutbox s.cmd_outbox
      → Move c (phase_of s c) call (phase_of (step json s call) c)
  unfolding step
  step_move c s (enqueues c' d topic ct v t e) h = enqueues_move json c s c' d topic ct v t e
  step_move c s (delivers c' now) h = delivers_move json c s c' now
  step_move c s (acks c' result detail now) h = acks_move json c s c' result detail now
  step_move c s (cancels c') h = cancels_move json c s c' h

  -- From an outbox in order, every sequence of calls of `enqueue`, `mark_delivered`, `record_ack` and
  -- `cancel` moves each command, as its row shows it, along the specified lifecycle: absent, pending,
  -- delivered, acknowledged, where a call moves only the command that it names, a delivery moves
  -- only a pending one, a cancel removes only a pending one, and nothing leaves acknowledged.
  pub run-Moves :
      (c : Text) (s : Database) (calls : List (OutboxCall Value))
      → IsOutbox s.cmd_outbox
      → Moves c (phase_of s c) calls (phase_of (run json s calls) c)
  unfolding run
  run-Moves c s [] h = done (phase_of s c)
  run-Moves c s (call ∷ calls) h =
      next (step_move c s call h)
        (run-Moves c (step json s call) calls (step-IsOutbox json s call h))

  -- A command that is acknowledged in the end and was not at first was acknowledged under its own id,
  -- while it was in the outbox.
  pub run-WasAcked :
      (c : Text) (s : Database) (calls : List (OutboxCall Value))
      → IsOutbox s.cmd_outbox
      → phase_of s c ≢ acked
      → phase_of (run json s calls) c ≡ acked
      → WasAcked c (phase_of s c) calls
  run-WasAcked c s calls h before after =
      Moves-WasAcked c (subst (λ q. Moves c (phase_of s c) calls q) after (run-Moves c s calls h))
        before
