-- ===== src/Gateway/Db/CmdOutbox/Moves.antt =====
-- How enqueue and mark_delivered of db/cmd_outbox.rs move a command.
use codeless_workspace.Base.{
  ℕ, ◌+◌, ◌≡◌, refl, sym, ap, ◌∙◌, ◌≢◌, inl, inr, Bool, true, false, ◌&&◌, Option, none, some, [],
  ◌∷◌, if◌then◌else◌, Bool-cases, Option-cases, Text, ◌=t◌, =t_iff, =t_sound, true-ne-false,
  is_none, ◌>>=?◌, find-update, find_row_sound, find_row, find-append_none, find-append_no,
  find-one,
}
use codeless_workspace.Gateway.Db.CmdOutbox.{has_cmd_id, mark_delivered, undelivered, enqueue}
use codeless_workspace.Gateway.Db.CmdOutbox.Effects.{row_of}
use codeless_workspace.Gateway.Db.CmdOutbox.Phase.{
  phase, phase_at, Phase, Move, phase_of, pending, unsent, sent, delivered, absent, acked, refused,
  accepted,
}
use codeless_workspace.Gateway.Db.CmdOutbox.Rows.{enqueue-Enqueued}
use codeless_workspace.Gateway.Db.CmdOutbox.Runs.{OutboxCall, delivers, enqueues}
use codeless_workspace.Gateway.Json.{Json}
use codeless_workspace.Gateway.Schema.{Database, OutboxRow}

pub ids_differ : (c c' : Text) → (c' =t c) ≡ false → c' ≢ c
ids_differ c c' h e = true-ne-false ((=t_iff c' c).1 e) h

has_own : (c : Text) (r : OutboxRow) → r.cmd_id ≡ c → has_cmd_id c r ≡ true
unfolding has_cmd_id
has_own c r e = (=t_iff r.cmd_id c).1 e

pub has_other : (c : Text) (r : OutboxRow) → r.cmd_id ≢ c → has_cmd_id c r ≡ false
unfolding has_cmd_id
has_other c r d = elim (Bool-cases (r.cmd_id =t c)) [
  | inr apart ↦ apart
  | inl same ↦ absurd (d (=t_sound r.cmd_id c same))
]

phase-new : (r : OutboxRow) → r.ack_at ≡ none → r.delivered_at ≡ none → phase (some r) ≡ pending
unfolding phase phase_at
phase-new r a d = rw (a, d) refl

phase-marked :
    (r : OutboxRow) (now : ℕ)
    → phase (
        some (
          if undelivered r
          then record r { delivered_at = some now; attempts = r.attempts + 1 }
          else r))
      ≡ phase_at r.ack_at (if undelivered r then some now else r.delivered_at)
unfolding phase
phase-marked r now = go (undelivered r)
  where
    go :
        (b : Bool)
        → phase (
            some (if b then record r { delivered_at = some now; attempts = r.attempts + 1 } else r))
          ≡ phase_at r.ack_at (if b then some now else r.delivered_at)
    go true = refl
    go false = refl

sent_at :
    {V : Type 0} (c : Text) (now : ℕ) (a d : Option ℕ)
    → Move {V = V} c
        (phase_at a d)
        (delivers c now)
        (phase_at a (if is_none d then some now else d))
unfolding phase_at
sent_at c now none none = sent now
sent_at c now none (some d) = unsent delivered c now (inl (λ e. cc))
sent_at c now (some a) d = unsent acked c now (inl (λ e. cc))

-- A row under another id.
pub other : (c c' : Text) (r : OutboxRow) → c' ≢ c → has_cmd_id c r ≡ true → has_cmd_id c' r ≡ false
unfolding has_cmd_id
other c c' r d h = has_other c' r (λ e. d (sym e ∙ =t_sound r.cmd_id c h))

module _ {V : Type 0} {c : Text} {call : OutboxCall V} where
  pub from_to : {p p' q q' : Phase} → p' ≡ p → q' ≡ q → Move c p call q → Move c p' call q'
  from_to e f m = rw (e, f) m

module _ (json : Json) (c : Text) (s : Database) where
  open json use {Value}

  pub row_has : (r : OutboxRow) → row_of s c ≡ some r → has_cmd_id c r ≡ true
  row_has r e = find_row_sound (has_cmd_id c) s.cmd_outbox r e

  enqueues_own :
      (d : ℕ) (topic ct : Text) (v : Value) (t e : ℕ)
      → Move c
          (phase_of s c)
          (enqueues c d topic ct v t e)
          (phase_of (enqueue json c d topic ct v t e s).1 c)
  unfolding phase
  enqueues_own d topic ct v t e = elim (enqueue-Enqueued json c d topic ct v t e s) [
    | inl same ↦
        from_to refl (ap (λ rows. phase (find_row (has_cmd_id c) rows)) same)
          (refused (phase_of s c) c d topic ct v t e)
    | inr (r, a, named, added) ↦
        let new : row_of s c ≡ none = rw (sym named) a.new_id in
        let there : row_of (enqueue json c d topic ct v t e s).1 c ≡ some r = rw added (
          find-append_none (has_cmd_id c) s.cmd_outbox (r ∷ []) new
          ∙ find-one (has_cmd_id c) r (has_own c r named)) in
        from_to (ap phase new) (ap phase there ∙ phase-new r a.unacked_yet a.undelivered_yet)
          (accepted d topic ct v t e)
  ]

  enqueues_other :
      (c' : Text)
      → c' ≢ c
      → (d : ℕ) (topic ct : Text) (v : Value) (t e : ℕ)
      → Move c
          (phase_of s c)
          (enqueues c' d topic ct v t e)
          (phase_of (enqueue json c' d topic ct v t e s).1 c)
  unfolding phase
  enqueues_other c' ne d topic ct v t e = elim (enqueue-Enqueued json c' d topic ct v t e s) [
    | inl same ↦
        from_to refl (ap (λ rows. phase (find_row (has_cmd_id c) rows)) same)
          (refused (phase_of s c) c' d topic ct v t e)
    | inr (r, a, named, added) ↦
        from_to refl
          (ap phase (
            ap (find_row (has_cmd_id c)) added
            ∙ find-append_no (has_cmd_id c) s.cmd_outbox r
                (has_other c r (λ e. ne (sym named ∙ e)))))
          (refused (phase_of s c) c' d topic ct v t e)
  ]

  -- mark_delivered
  marked_row :
      (c' : Text) (now : ℕ)
      → row_of (mark_delivered c' now s).1 c ≡ (
          row_of s c >>=? λ r. some (
            if has_cmd_id c' r && undelivered r
            then record r { delivered_at = some now; attempts = r.attempts + 1 }
            else r))
  unfolding mark_delivered
  marked_row c' now =
      find-update (has_cmd_id c) (λ r. has_cmd_id c' r && undelivered r)
        (λ r. record r { delivered_at = some now; attempts = r.attempts + 1 }) (λ r. refl)
        s.cmd_outbox

  delivers_own :
      (now : ℕ)
      → Move {V = Value} c (phase_of s c) (delivers c now) (phase_of (mark_delivered c now s).1 c)
  unfolding phase
  delivers_own now = elim (Option-cases (row_of s c)) [
    | inl gone ↦
        from_to (ap phase gone) (ap phase (marked_row c now) ∙ rw gone refl)
          (unsent absent c now (inl (λ e. cc)))
    | inr (r, there) ↦
        from_to (ap phase there)
          (ap phase (marked_row c now) ∙ rw (there, row_has r there) (phase-marked r now))
          (sent_at c now r.ack_at r.delivered_at)
  ]

  delivers_other :
      (c' : Text)
      → c' ≢ c
      → (now : ℕ)
      → Move {V = Value} c (phase_of s c) (delivers c' now) (phase_of (mark_delivered c' now s).1 c)
  unfolding phase
  delivers_other c' ne now = elim (Option-cases (row_of s c)) [
    | inl gone ↦
        from_to (ap phase gone) (ap phase (marked_row c' now) ∙ rw gone refl)
          (unsent absent c' now (inr ne))
    | inr (r, there) ↦
        from_to (ap phase there)
          (ap phase (marked_row c' now) ∙ rw (there, other c c' r ne (row_has r there)) refl)
          (unsent (phase (some r)) c' now (inr ne))
  ]

  pub enqueues_move :
      (c' : Text) (d : ℕ) (topic ct : Text) (v : Value) (t e : ℕ)
      → Move c
          (phase_of s c)
          (enqueues c' d topic ct v t e)
          (phase_of (enqueue json c' d topic ct v t e s).1 c)
  enqueues_move c' d topic ct v t e = elim (Bool-cases (c' =t c)) [
    | inl same ↦ rw (=t_sound c' c same) (enqueues_own d topic ct v t e)
    | inr apart ↦ enqueues_other c' (ids_differ c c' apart) d topic ct v t e
  ]

  pub delivers_move :
      (c' : Text) (now : ℕ)
      → Move {V = Value} c (phase_of s c) (delivers c' now) (phase_of (mark_delivered c' now s).1 c)
  delivers_move c' now = elim (Bool-cases (c' =t c)) [
    | inl same ↦ rw (=t_sound c' c same) (delivers_own now)
    | inr apart ↦ delivers_other c' (ids_differ c c' apart) now
  ]
