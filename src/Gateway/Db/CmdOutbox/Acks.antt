-- ===== src/Gateway/Db/CmdOutbox/Acks.antt =====
-- How record_ack of db/cmd_outbox.rs moves a command.
use codeless_workspace.Base.{
  ℕ, ◌≡◌, refl, ap, ◌∙◌, ◌≢◌, inl, inr, Bool, true, false, Option, none, some, if◌then◌else◌,
  Bool-cases, Option-cases, Text, ◌=t◌, =t_sound, is_some, is_none, ◌>>=?◌, find-update,
}
use codeless_workspace.Gateway.Db.CmdOutbox.{has_cmd_id, acknowledge, record_ack, coalesce}
use codeless_workspace.Gateway.Db.CmdOutbox.Effects.{record_ack-acknowledge, record_ack_lem, row_of}
use codeless_workspace.Gateway.Db.CmdOutbox.Moves.{from_to, other, ids_differ, row_has}
use codeless_workspace.Gateway.Db.CmdOutbox.Phase.{
  phase, phase_at, Move, phase_of, absent, unanswered, answered,
}
use codeless_workspace.Gateway.Db.CmdOutbox.Runs.{acks}
use codeless_workspace.Gateway.Error.{Result}
use codeless_workspace.Gateway.Json.{Json}
use codeless_workspace.Gateway.Schema.{Database}
use codeless_workspace.Proto.Msg.{parse_cmd_result}

phase_at-absent : (a d : Option ℕ) → phase_at a d ≢ absent
unfolding phase_at
phase_at-absent none none e = cc
phase_at-absent none (some d) e = cc
phase_at-absent (some a) d e = cc

module _ (json : Json) (c : Text) (s : Database) where
  open json use {Value}

  -- record_ack
  acked_row :
      (c' result : Text) (detail : Option Text) (now : ℕ)
      → is_none (parse_cmd_result result) ≡ false
      → row_of (record_ack c' result detail now s).1 c ≡ (
          row_of s c >>=? λ r. some (
            if has_cmd_id c' r
            then record r {
              ack_at = some now;
              ack_result = some result;
              ack_detail = detail;
              delivered_at = coalesce r.delivered_at now;
            }
            else r))
  unfolding acknowledge
  acked_row c' result detail now valid =
      ap (λ (x : Result Bool × Database). row_of x.1 c)
        (record_ack-acknowledge c' result detail now s valid)
      ∙ find-update (has_cmd_id c) (has_cmd_id c')
          (λ r. record r {
            ack_at = some now;
            ack_result = some result;
            ack_detail = detail;
            delivered_at = coalesce r.delivered_at now;
          })
          (λ r. refl) s.cmd_outbox

  -- A result that is none of the four changes nothing.
  record_ack-bad :
      (c' result : Text) (detail : Option Text) (now : ℕ)
      → is_none (parse_cmd_result result) ≡ true
      → (record_ack c' result detail now s).1 ≡ s
  record_ack-bad c' result detail now bad = elim (Option-cases (row_of s c')) [
    | inl gone ↦ (record_ack_lem c' result detail now s).1 gone
    | inr (r, there) ↦
        ap (λ (x : Result Bool × Database). x.1)
          ((record_ack_lem c' result detail now s).2 bad (ap is_some there))
  ]

  acks_own :
      (result : Text) (detail : Option Text) (now : ℕ)
      → is_none (parse_cmd_result result) ≡ false
      → Move {V = Value} c
          (phase_of s c)
          (acks c result detail now)
          (phase_of (record_ack c result detail now s).1 c)
  unfolding phase phase_at
  acks_own result detail now valid = elim (Option-cases (row_of s c)) [
    | inl gone ↦
        from_to (ap phase gone) (ap phase (acked_row c result detail now valid) ∙ rw gone refl)
          (unanswered absent c result detail now (inl refl))
    | inr (r, there) ↦
        from_to (ap phase there)
          (ap phase (acked_row c result detail now valid)
            ∙ rw (there, row_has json c s r there) refl)
          (answered (phase_at r.ack_at r.delivered_at) result detail now
            (phase_at-absent r.ack_at r.delivered_at) valid)
  ]

  acks_other :
      (c' : Text)
      → c' ≢ c
      → (result : Text) (detail : Option Text) (now : ℕ) → is_none (parse_cmd_result result) ≡ false
      → Move {V = Value} c
          (phase_of s c)
          (acks c' result detail now)
          (phase_of (record_ack c' result detail now s).1 c)
  unfolding phase
  acks_other c' ne result detail now valid = elim (Option-cases (row_of s c)) [
    | inl gone ↦
        from_to (ap phase gone) (ap phase (acked_row c' result detail now valid) ∙ rw gone refl)
          (unanswered absent c' result detail now (inl refl))
    | inr (r, there) ↦
        from_to (ap phase there)
          (ap phase (acked_row c' result detail now valid)
            ∙ rw (there, other c c' r ne (row_has json c s r there)) refl)
          (unanswered (phase (some r)) c' result detail now (inr (inr ne)))
  ]

  pub acks_move :
      (c' result : Text) (detail : Option Text) (now : ℕ)
      → Move {V = Value} c
          (phase_of s c)
          (acks c' result detail now)
          (phase_of (record_ack c' result detail now s).1 c)
  acks_move c' result detail now = elim (Bool-cases (is_none (parse_cmd_result result))) [
    | inl bad ↦
        from_to refl (ap (λ s'. phase_of s' c) (record_ack-bad c' result detail now bad))
          (unanswered (phase_of s c) c' result detail now (inr (inl bad)))
    | inr valid ↦ elim (Bool-cases (c' =t c)) [
      | inl same ↦ rw (=t_sound c' c same) (acks_own result detail now valid)
      | inr apart ↦ acks_other c' (ids_differ c c' apart) result detail now valid
    ]
  ]
