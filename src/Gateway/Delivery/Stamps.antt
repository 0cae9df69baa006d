-- ===== src/Gateway/Delivery/Stamps.antt =====
-- What the deliveries of a drain may do to the rows of the outbox.
use codeless_workspace.Base.{
  ℕ, ◌≡◌, inl, inr, Bool, true, false, ◌&&◌, ◌||◌, List, [], ◌∷◌, arith, Bool-cases, update_rows,
}
use codeless_workspace.Gateway.Db.CmdOutbox.{undelivered}
use codeless_workspace.Gateway.Delivery.Pushes.{stamp}
use codeless_workspace.Gateway.Schema.{OutboxRow}

-- Rows after deliveries: the undelivered ones that `p` picks are stamped, each once and with some
-- time, and all others are as they were.
pub data Stamped (p : OutboxRow → Bool) : List OutboxRow → List OutboxRow → Type 0 where
  none_left : Stamped p [] []
  as_is :
      {r : OutboxRow} {rs rs' : List OutboxRow}
      → (undelivered r && p r) ≡ false
      → Stamped p rs rs'
      → Stamped p (r ∷ rs) (r ∷ rs')
  stamped :
      {r : OutboxRow} {rs rs' : List OutboxRow} (at : ℕ)
      → (undelivered r && p r) ≡ true
      → Stamped p rs rs'
      → Stamped p (r ∷ rs) (stamp at r ∷ rs')

pub unpicked : (c : OutboxRow → Bool) (rs : List OutboxRow) → Stamped (λ r. c r && false) rs rs
unpicked c [] = none_left
unpicked c (r ∷ rs) = as_is (ground arith) (unpicked c rs)

pub updated :
    (c : OutboxRow → Bool) (at : ℕ) (rs : List OutboxRow)
    → Stamped (λ r. c r && true) rs (update_rows (λ r. c r && undelivered r) (stamp at) rs)
unfolding update_rows
updated c at [] = none_left
updated c at (r ∷ rs) = elim (Bool-cases (c r && undelivered r)) [
  | inl e ↦ rw e (stamped at (ground (arith, e)) (updated c at rs))
  | inr e ↦ rw e (as_is (ground (arith, e)) (updated c at rs))
]

pub both-Stamped :
    {p q : OutboxRow → Bool} {rs rs' rs'' : List OutboxRow}
    → Stamped p rs rs'
    → Stamped q rs' rs''
    → Stamped (λ r. p r || q r) rs rs''
both-Stamped none_left none_left = none_left
both-Stamped (as_is e h) (as_is f k) = as_is (ground (arith, e, f)) (both-Stamped h k)
both-Stamped (as_is e h) (stamped at f k) = stamped at (ground (arith, e, f)) (both-Stamped h k)
both-Stamped (stamped at e h) (as_is f k) = stamped at (ground (arith, e)) (both-Stamped h k)
both-Stamped (stamped at e h) (stamped at' f k) = cc
