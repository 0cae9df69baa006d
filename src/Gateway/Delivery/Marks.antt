-- ===== src/Gateway/Delivery/Marks.antt =====
-- The row of a command after the loop of `drain_pending`.
use codeless_workspace.Base.{
  ℕ, ◌≡◌, refl, sym, ap, ◌∙◌, ◌≢◌, inl, inr, Bool, true, false, ◌&&◌, ◌||◌, Option, none, some,
  List, [], ◌∷◌, map, arith, if◌then◌else◌, Bool-cases, Text, ◌=t◌, =t_refl, =t_sound, All,
  true-ne-false, is_some, ◌>>=?◌, Distinct, find_row, select, select_yes, select_no, find-update,
  find_row_sound, All-map, All-select, some_inj,
}
use codeless_workspace.Gateway.Db.CmdOutbox.{CmdRow, row_to_cmd, has_cmd_id, undelivered}
use codeless_workspace.Gateway.Db.CmdOutbox.Inv.{row_cmd_id}
use codeless_workspace.Gateway.Delivery.{Wire}
use codeless_workspace.Gateway.Delivery.Pushes.{is_due, stamp, goes, mark, marks}
use codeless_workspace.Gateway.Json.{Json}
use codeless_workspace.Gateway.Schema.{Database, OutboxRow}
use codeless_workspace.Proto.Uuid.{Uuids}

module _ (json : Json) (uuids : Uuids) (wire : Wire uuids.Uuid json.Value) (clock : Text → ℕ)
    (s : Database) where
  open json use {Value}

  -- Whether a message of the list is for the command.
  pub hits : Text → List (CmdRow Value) → Bool
  hits c [] = false
  hits c (x ∷ xs) = (has_cmd_id c x.row && is_some (goes json uuids wire s x)) || hits c xs

  flipped : (c d : Text) → (c =t d) ≡ (d =t c)
  flipped c d = elim (Bool-cases (c =t d)) [
    | inl e ↦ rw (=t_sound c d e)
    | inr e ↦ elim (Bool-cases (d =t c)) [
      | inl f ↦ absurd (true-ne-false (rw (=t_sound d c f) (=t_refl c)) e)
      | inr f ↦ rw (e, f)
    ]
  ]

  mark_row :
      (c : Text) (x r : OutboxRow)
      → has_cmd_id c r ≡ true
      → (if has_cmd_id x.cmd_id r && undelivered r then stamp (clock x.cmd_id) r else r)
        ≡ (if undelivered r && (has_cmd_id c x && true) then stamp (clock c) r else r)
  unfolding has_cmd_id
  mark_row c x r h = elim (Bool-cases (x.cmd_id =t c)) [
    | inl e ↦ rw (e, =t_sound x.cmd_id c e, h) (ground arith)
    | inr e ↦ rw (e, =t_sound r.cmd_id c h, flipped c x.cmd_id, e) (ground arith)
  ]

  find-mark :
      (c : Text) (x : CmdRow Value) (rows : List OutboxRow)
      → find_row (has_cmd_id c) (mark json uuids wire clock s x rows) ≡ (
          find_row (has_cmd_id c) rows >>=? λ r. some (
            if undelivered r && (has_cmd_id c x.row && is_some (goes json uuids wire s x))
            then stamp (clock c) r
            else r))
  unfolding mark has_cmd_id
  find-mark c x rows = elim (Bool-cases (is_some (goes json uuids wire s x))) [
    | inl e ↦ rw e (
        find-update (has_cmd_id c) (λ r. has_cmd_id x.row.cmd_id r && undelivered r)
          (stamp (clock x.row.cmd_id)) (λ r. refl) rows
        ∙ each (find_row (has_cmd_id c) rows) refl)
    | inr e ↦ rw e (kept (find_row (has_cmd_id c) rows))
  ]
    where
      each :
          (o : Option OutboxRow)
          → find_row (has_cmd_id c) rows ≡ o
          → (o >>=? λ r. some (
              if has_cmd_id x.row.cmd_id r && undelivered r
              then stamp (clock x.row.cmd_id) r
              else r))
            ≡ (o >>=? λ r.
                some
                  (if undelivered r && (has_cmd_id c x.row && true) then stamp (clock c) r else r))
      each none e = refl
      each (some r) e = ap some (mark_row c x.row r (find_row_sound (has_cmd_id c) rows r e))

      kept :
          (o : Option OutboxRow)
          → o ≡ (
              o >>=? λ r.
              some
                (if undelivered r && (has_cmd_id c x.row && false) then stamp (clock c) r else r))
      kept none = refl
      kept (some r) = ap some (ground arith)

  pub find-marks :
      (c : Text) (xs : List (CmdRow Value)) (rows : List OutboxRow)
      → find_row (has_cmd_id c) (marks json uuids wire clock s xs rows) ≡ (
          find_row (has_cmd_id c) rows >>=? λ r.
          some (if undelivered r && hits c xs then stamp (clock c) r else r))
  unfolding marks hits
  find-marks c [] rows = sym (kept (find_row (has_cmd_id c) rows))
    where
      kept :
          (o : Option OutboxRow)
          → (o >>=? λ r. some (if undelivered r && false then stamp (clock c) r else r)) ≡ o
      kept none = refl
      kept (some r) = ap some (ground arith)
  find-marks c (x ∷ xs) rows =
      find-marks c xs (mark json uuids wire clock s x rows)
      ∙ ap (λ o. o >>=? λ r. some (if undelivered r && hits c xs then stamp (clock c) r else r))
          (find-mark c x rows)
      ∙ twice (find_row (has_cmd_id c) rows)
    where
      twice :
          (o : Option OutboxRow)
          → ((o >>=? λ r. some (
                if undelivered r && (has_cmd_id c x.row && is_some (goes json uuids wire s x))
                then stamp (clock c) r
                else r))
              >>=? λ r. some (if undelivered r && hits c xs then stamp (clock c) r else r))
            ≡ (o >>=? λ r. some (
                if undelivered r
                  && ((has_cmd_id c x.row && is_some (goes json uuids wire s x)) || hits c xs)
                then stamp (clock c) r
                else r))
      twice none = refl
      twice (some r) = ap some (ground arith)

  none_due :
      (c : Text) (now : ℕ) (rows : List OutboxRow)
      → All (λ r. has_cmd_id c r ≡ false) rows
      → hits c (map (row_to_cmd json now) rows) ≡ false
  unfolding hits row_to_cmd
  none_due c now [] h = refl
  none_due c now (r ∷ rows) h = rw (h.0, none_due c now rows h.1) refl

  others :
      (c : Text) (r : OutboxRow) (rows : List OutboxRow)
      → has_cmd_id c r ≡ true
      → All (λ x. r.cmd_id ≢ x.cmd_id) rows
      → All (λ x. has_cmd_id c x ≡ false) rows
  unfolding has_cmd_id
  others c r rows e h =
      All-map (λ (x : OutboxRow). r.cmd_id ≢ x.cmd_id) (λ (x : OutboxRow). (x.cmd_id =t c) ≡ false)
        (λ x ne. elim (Bool-cases (x.cmd_id =t c)) [
          | inl f ↦ absurd (ne (=t_sound r.cmd_id c e ∙ sym (=t_sound x.cmd_id c f)))
          | inr f ↦ f
        ])
        rows h

  hits-cons :
      (c : Text) (now : ℕ) (x : OutboxRow) (rows : List OutboxRow)
      → hits c (map (row_to_cmd json now) (select (is_due now) (x ∷ rows))) ≡ (
          (has_cmd_id c x
            && (is_due now x && is_some (goes json uuids wire s (row_to_cmd json now x))))
          || hits c (map (row_to_cmd json now) (select (is_due now) rows)))
  unfolding hits row_to_cmd
  hits-cons c now x rows = elim (Bool-cases (is_due now x)) [
    | inl e ↦ rw (select_yes (is_due now) x rows e, e) refl
    | inr e ↦ rw (select_no (is_due now) x rows e, e) (ground arith)
  ]

  found_head :
      (c : Text) (x : OutboxRow) (rows : List OutboxRow)
      → has_cmd_id c x ≡ true
      → find_row (has_cmd_id c) (x ∷ rows) ≡ some x
  unfolding find_row
  found_head c x rows e = rw e refl

  found_tail :
      (c : Text) (x : OutboxRow) (rows : List OutboxRow)
      → has_cmd_id c x ≡ false
      → find_row (has_cmd_id c) (x ∷ rows) ≡ find_row (has_cmd_id c) rows
  unfolding find_row
  found_tail c x rows e = rw e refl

  pub due_hits :
      (c : Text) (now : ℕ) (rows : List OutboxRow)
      → Distinct row_cmd_id rows
      → (r : OutboxRow) → find_row (has_cmd_id c) rows ≡ some r
      → hits c (map (row_to_cmd json now) (select (is_due now) rows))
        ≡ (is_due now r && is_some (goes json uuids wire s (row_to_cmd json now r)))
  unfolding find_row
  due_hits c now [] d r h = cc
  due_hits c now (x ∷ rows) d r h = hits-cons c now x rows ∙ elim (Bool-cases (has_cmd_id c x)) [
    | inl e ↦
        rw
          (
            e,
            none_due c now (select (is_due now) rows) (
                All-select (λ y. has_cmd_id c y ≡ false) (is_due now) rows (others c x rows e d.0)),
            some_inj (sym (found_head c x rows e) ∙ h),
          )
          (ground arith)
    | inr e ↦ rw (e, due_hits c now rows d.1 r (sym (found_tail c x rows e) ∙ h)) refl
  ]
