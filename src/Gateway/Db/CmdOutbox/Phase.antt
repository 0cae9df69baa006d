-- ===== src/Gateway/Db/CmdOutbox/Phase.antt =====
-- The lifecycle of one command, and how the calls of db/cmd_outbox.rs move along it.
use codeless_workspace.Base.{
  ℕ, ◌≡◌, ◌≢◌, ◌⊎◌, true, false, Option, none, some, List, [], ◌∷◌, Text, is_none,
}
use codeless_workspace.Gateway.Db.CmdOutbox.Effects.{row_of}
use codeless_workspace.Gateway.Db.CmdOutbox.Runs.{OutboxCall, enqueues, delivers, acks, cancels}
use codeless_workspace.Gateway.Schema.{Database, OutboxRow}
use codeless_workspace.Proto.Msg.{parse_cmd_result}

pub data Phase : Type 0 where
  absent : Phase
  pending : Phase
  delivered : Phase
  acked : Phase

unfoldable pub phase_at : Option ℕ → Option ℕ → Phase
phase_at (some ack_at) delivered_at = acked
phase_at none (some delivered_at) = delivered
phase_at none none = pending

-- What a caller sees of a row, its expiry aside.
unfoldable pub phase : Option OutboxRow → Phase
unfolding phase_at
phase none = absent
phase (some r) = phase_at r.ack_at r.delivered_at

abbrev pub phase_of : Database → Text → Phase
phase_of s c = phase (row_of s c)

-- The specification: what a call may do to the command `c`. Nothing here speaks of rows.
pub data Move {V : Type 0} (c : Text) : Phase → OutboxCall V → Phase → Type 0 where
  accepted :
      (d : ℕ) (topic ct : Text) (v : V) (t e : ℕ)
      → Move c absent (enqueues c d topic ct v t e) pending
  refused :
      (p : Phase) (c' : Text) (d : ℕ) (topic ct : Text) (v : V) (t e : ℕ)
      → Move c p (enqueues c' d topic ct v t e) p
  sent : (now : ℕ) → Move c pending (delivers c now) delivered
  unsent : (p : Phase) (c' : Text) (now : ℕ) → p ≢ pending ⊎ c' ≢ c → Move c p (delivers c' now) p
  answered :
      (p : Phase) (result : Text) (detail : Option Text) (now : ℕ)
      → p ≢ absent
      → is_none (parse_cmd_result result) ≡ false
      → Move c p (acks c result detail now) acked
  unanswered :
      (p : Phase) (c' result : Text) (detail : Option Text) (now : ℕ)
      → p ≡ absent ⊎ (is_none (parse_cmd_result result) ≡ true) ⊎ c' ≢ c
      → Move c p (acks c' result detail now) p
  dropped : Move c pending (cancels c) absent
  kept : (p : Phase) (c' : Text) → p ≢ pending ⊎ c' ≢ c → Move c p (cancels c') p

-- A sequence of calls, one move for each.
pub data Moves {V : Type 0} (c : Text) : Phase → List (OutboxCall V) → Phase → Type 0 where
  done : (p : Phase) → Moves c p [] p
  next :
      {p q r : Phase} {call : OutboxCall V} {calls : List (OutboxCall V)}
      → Move c p call q
      → Moves c q calls r
      → Moves c p (call ∷ calls) r
