-- ===== src/Gateway/Db/CmdOutbox/Cancels.antt =====
-- How cancel of db/cmd_outbox.rs moves a command, in a table where ids stand once.
use codeless_workspace.Base.{
  ℕ, ◌≡◌, refl, sym, ap, ◌∙◌, ◌≢◌, inl, inr, Bool, true, false, ◌&&◌, Option, none, some, List, [],
  ◌∷◌, Bool-cases, Option-cases, Text, ◌=t◌, =t_sound, All, true-ne-false, is_some, is_none,
  find_row, delete_rows, Distinct, some_inj, find-delete_none, find_none_of, All-map, subst,
  find-delete_kept,
}
use codeless_workspace.Gateway.Db.CmdOutbox.{has_cmd_id, undelivered, cancel}
use codeless_workspace.Gateway.Db.CmdOutbox.Effects.{row_of}
use codeless_workspace.Gateway.Db.CmdOutbox.Inv.{row_cmd_id, IsSound, IsOutbox}
use codeless_workspace.Gateway.Db.CmdOutbox.Moves.{has_other, from_to, row_has, other, ids_differ}
use codeless_workspace.Gateway.Db.CmdOutbox.Phase.{
  phase_at, phase, pending, Move, phase_of, kept, absent, dropped,
}
use codeless_workspace.Gateway.Db.CmdOutbox.Runs.{cancels}
use codeless_workspace.Gateway.Json.{Json}
use codeless_workspace.Gateway.Schema.{OutboxRow, Database}

apart_of :
    (c : Text) (x : OutboxRow)
    → has_cmd_id c x ≡ true
    → (y : OutboxRow) → row_cmd_id x ≢ row_cmd_id y
    → has_cmd_id c y ≡ false
unfolding has_cmd_id
apart_of c x mine y ne = has_other c y (λ e. ne (=t_sound x.cmd_id c mine ∙ sym e))

-- Where the first row under a key is deleted, none is left under it, if keys stand once.
find-delete_once :
    (c : Text) (rows : List OutboxRow) (r : OutboxRow)
    → Distinct row_cmd_id rows
    → find_row (has_cmd_id c) rows ≡ some r
    → undelivered r ≡ true
    → find_row (has_cmd_id c) (delete_rows (λ x. has_cmd_id c x && undelivered x) rows) ≡ none
unfolding find_row delete_rows
find-delete_once c [] r d h u = cc
find-delete_once c (x ∷ rows) r d h u = elim (Bool-cases (has_cmd_id c x)) [
  | inl mine ↦
      let first : x ≡ r = some_inj (sym (rw mine refl) ∙ h) in
      rw (mine, first, u)
        (find-delete_none (has_cmd_id c) (λ y. has_cmd_id c y && undelivered y) rows
          (find_none_of (has_cmd_id c) rows (
            All-map (λ y. row_cmd_id x ≢ row_cmd_id y) (λ y. has_cmd_id c y ≡ false)
              (apart_of c x mine) rows d.0)))
  | inr other ↦ rw (other, other) (find-delete_once c rows r d.1 (sym (rw other refl) ∙ h) u)
]

find-All {ℓ} :
    (P : OutboxRow → Type ℓ) (p : OutboxRow → Bool) (rows : List OutboxRow) (r : OutboxRow)
    → All P rows
    → find_row p rows ≡ some r
    → P r
unfolding find_row
find-All P p [] r a h = cc
find-All P p (x ∷ rows) r a h = elim (Bool-cases (p x)) [
  | inl e ↦ subst P (some_inj (sym (rw e refl) ∙ h)) a.0
  | inr e ↦ find-All P p rows r a.1 (sym (rw e refl) ∙ h)
]

waiting_at :
    (a d : Option ℕ)
    → (is_some a ≡ true → is_some d ≡ true)
    → is_none d ≡ true
    → phase_at a d ≡ pending
unfolding phase_at
waiting_at none none h u = refl
waiting_at a (some d) h u = cc
waiting_at (some a) none h u = absurd (true-ne-false (h refl) refl)

gone_out_at : (a d : Option ℕ) → is_none d ≡ false → phase_at a d ≢ pending
unfolding phase_at
gone_out_at a none u e = cc
gone_out_at none (some d) u e = cc
gone_out_at (some a) (some d) u e = cc

-- A sound row that waits is pending, and one that was delivered is not.
phase-waiting : (r : OutboxRow) → IsSound r → undelivered r ≡ true → phase (some r) ≡ pending
unfolding phase
phase-waiting r v u = waiting_at r.ack_at r.delivered_at v.acked_delivered u

phase-gone_out : (r : OutboxRow) → undelivered r ≡ false → phase (some r) ≢ pending
unfolding phase
phase-gone_out r u = gone_out_at r.ack_at r.delivered_at u

module _ (json : Json) (c : Text) (s : Database) where
  open json use {Value}

  cancels_own :
      IsOutbox s.cmd_outbox
      → Move {V = Value} c (phase_of s c) (cancels c) (phase_of (cancel c s).1 c)
  unfolding cancel phase
  cancels_own v = elim (Option-cases (row_of s c)) [
    | inl gone ↦
        from_to (ap phase gone) (ap phase (find-delete_none (has_cmd_id c) _ s.cmd_outbox gone))
          (kept absent c (inl (λ e. cc)))
    | inr (r, there) ↦ elim (Bool-cases (undelivered r)) [
      | inl waits ↦
          from_to
            (ap phase there
              ∙ phase-waiting r (find-All IsSound (has_cmd_id c) s.cmd_outbox r v.sound there)
                  waits)
            (ap phase (find-delete_once c s.cmd_outbox r v.distinct there waits)) dropped
      | inr out ↦
          from_to (ap phase there)
            (ap phase (
              find-delete_kept (has_cmd_id c) (λ x. has_cmd_id c x && undelivered x) s.cmd_outbox r
                there (rw (row_has json c s r there, out) refl)))
            (kept (phase (some r)) c (inl (phase-gone_out r out)))
    ]
  ]

  cancels_other :
      (c' : Text)
      → c' ≢ c
      → Move {V = Value} c (phase_of s c) (cancels c') (phase_of (cancel c' s).1 c)
  unfolding cancel phase
  cancels_other c' ne = elim (Option-cases (row_of s c)) [
    | inl gone ↦
        from_to (ap phase gone) (ap phase (find-delete_none (has_cmd_id c) _ s.cmd_outbox gone))
          (kept absent c' (inr ne))
    | inr (r, there) ↦
        from_to (ap phase there)
          (ap phase (
            find-delete_kept (has_cmd_id c) (λ x. has_cmd_id c' x && undelivered x) s.cmd_outbox r
              there (rw (other c c' r ne (row_has json c s r there)) refl)))
          (kept (phase (some r)) c' (inr ne))
  ]

  pub cancels_move :
      (c' : Text)
      → IsOutbox s.cmd_outbox
      → Move {V = Value} c (phase_of s c) (cancels c') (phase_of (cancel c' s).1 c)
  cancels_move c' v = elim (Bool-cases (c' =t c)) [
    | inl same ↦ rw (=t_sound c' c same) (cancels_own v)
    | inr apart ↦ cancels_other c' (ids_differ c c' apart)
  ]
