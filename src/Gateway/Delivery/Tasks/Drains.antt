-- ===== src/Gateway/Delivery/Tasks/Drains.antt =====
-- The pusher alone, from the rows it has fetched until it is at rest.
use codeless_workspace.Base.{
  ℕ, suc, ◌≤◌, ◌≡◌, refl, sym, ap, ◌∙◌, ◌≢◌, ◌⊎◌, inl, inr, Bool, false, ◌&&◌, ◌||◌, Option, none,
  some, List, [], ◌∷◌, ◌++◌, arith, if◌then◌else◌, Text, length, is_some, update_rows, drop, take,
  subst,
}
use codeless_workspace.Gateway.Api.Detail.{Details}
use codeless_workspace.Gateway.Db.CmdOutbox.{CmdRow, undelivered, has_cmd_id}
use codeless_workspace.Gateway.Delivery.{Wire, push_row}
use codeless_workspace.Gateway.Delivery.Pushes.{
  mark, stamp, goes, sends, with_rows, pushed, sends-cons,
}
use codeless_workspace.Gateway.Delivery.Tasks.{
  Plane, Pusher, waits, pushing, Turn, rest, push_one, push, wake, timer, starts, due_rows,
}
use codeless_workspace.Gateway.Delivery.Stamps.{
  Stamped, none_left, as_is, unpicked, updated, both-Stamped,
}
use codeless_workspace.Gateway.Error.{ok, or_empty}
use codeless_workspace.Gateway.Json.{Json}
use codeless_workspace.Gateway.Schema.{OutboxRow, Database}
use codeless_workspace.Proto.Uuid.{Uuids}
use mathlib.Core.List.{append-nil, append_assoc}

cons-ne-nil : {A : Type 0} {x : A} {xs : List A} → x ∷ xs ≢ []
cons-ne-nil e = cc

pushing_inj : {V : Type 0} {xs ys : List (CmdRow V)} → Pusher.pushing xs ≡ pushing ys → xs ≡ ys
pushing_inj e = cc

module _ (json : Json) (uuids : Uuids) (details : Details) (wire : Wire uuids.Uuid json.Value) where
  open json use {Value}

  -- Steps of the pusher alone, of a drain that is not over before any of them.
  pub data Undisturbed : Plane Value → ℕ → Plane Value → Type 0 where
    still : (p : Plane Value) → Undisturbed p 0 p
    first :
        {p q r : Plane Value} {n : ℕ}
        → p.pusher ≢ waits
        → Turn json uuids details wire p q
        → Undisturbed q n r
        → Undisturbed p (suc n) r

  module _ (s : Database) where
    -- A row of the table whose command is among these and whose message goes out.
    unfoldable pub hit : List (CmdRow Value) → OutboxRow → Bool
    hit [] r = false
    hit (x ∷ xs) r = (has_cmd_id x.row.cmd_id r && is_some (goes json uuids wire s x)) || hit xs r

    mark-Stamped :
        (x : CmdRow Value) (at : ℕ) (rs : List OutboxRow)
        → Stamped
            (λ r. has_cmd_id x.row.cmd_id r && is_some (goes json uuids wire s x))
            rs
            (mark json uuids wire (λ _. at) s x rs)
    unfolding mark
    mark-Stamped x at rs = go (goes json uuids wire s x)
      where
        go :
            (o : Option (Text × Text))
            → Stamped
                (λ r. has_cmd_id x.row.cmd_id r && is_some o)
                rs
                (if is_some o
                  then update_rows (λ r. has_cmd_id x.row.cmd_id r && undelivered r) (stamp at) rs
                  else rs)
        go none = unpicked (has_cmd_id x.row.cmd_id) rs
        go (some m) = updated (has_cmd_id x.row.cmd_id) at rs

    with_outbox : List OutboxRow → Database
    with_outbox rs = record s { cmd_outbox = rs }

    push_one-marks :
        (x : CmdRow Value) (rows : List (CmdRow Value)) (at : ℕ) (rs : List OutboxRow)
        (p : Plane Value)
        → p.app.database ≡ with_outbox rs
        → ((push_one json uuids details wire x rows at p).app.database
            ≡ with_outbox (mark json uuids wire (λ _. at) s x rs))
          × ((push_one json uuids details wire x rows at p).published
              ≡ p.published ++ sends json uuids wire s (x ∷ []))
    unfolding push_one with_outbox with_rows
    push_one-marks x rows at rs p e =
        let done : push_row json uuids wire (λ _. at) x p.app.database ≡ (
          ok (sends json uuids wire s (x ∷ [])),
          with_outbox (mark json uuids wire (λ _. at) s x rs),
        ) =
          ap (push_row json uuids wire (λ _. at) x) e ∙ pushed json uuids wire (λ _. at) s x rs in
        (ap (λ r. r.1) done, ap (λ r. p.published ++ or_empty r.0) done)

    -- Where the pusher stands after `n` steps on these rows.
    Stands : List (CmdRow Value) → ℕ → Plane Value → Type 0
    Stands rows n q =
        ((n ≤ length rows)
          × (q.pusher ≡ pushing (drop n rows))
          × ((r : Plane Value) × Turn json uuids details wire q r))
        ⊎ ((n ≡ suc (length rows)) × (q.pusher ≡ waits))

    -- What it has written and sent.
    Wrote : List (CmdRow Value) → List OutboxRow → List (Text × Text) → Plane Value → Type 0
    Wrote rows rs before q =
        (q.published ≡ before ++ sends json uuids wire s rows)
        × ((rs' : List OutboxRow) × (q.app.database ≡ with_outbox rs') × Stamped (hit rows) rs rs')

    can_step :
        (q : Plane Value) (rows : List (CmdRow Value))
        → q.pusher ≡ pushing rows
        → (r : Plane Value) × Turn json uuids details wire q r
    can_step q [] e = (record q { pusher = waits }, rest e)
    can_step q (x ∷ rows) e = (push_one json uuids details wire x rows 0 q, push x rows 0 e)

    nothing_hit : (rs : List OutboxRow) → Stamped (hit []) rs rs
    unfolding hit
    nothing_hit [] = none_left
    nothing_hit (r ∷ rs) = as_is (ground arith) (nothing_hit rs)

    one_more :
        (x : CmdRow Value) (rows : List (CmdRow Value)) (at : ℕ) (rs : List OutboxRow) (n : ℕ)
        (p q : Plane Value)
        → p.app.database ≡ with_outbox rs
        → Stands rows n q
          × Wrote
              (take n rows)
              (mark json uuids wire (λ _. at) s x rs)
              (push_one json uuids details wire x rows at p).published
              q
        → Stands (x ∷ rows) (suc n) q × Wrote (take (suc n) (x ∷ rows)) rs p.published q
    unfolding Stands Wrote hit
    one_more x rows at rs n p q d (stands, (sent, (rs', now_rows, marked))) = (
      elim stands [
        | inl (few, holds_rest, steps) ↦ inl (omega (arith, few), holds_rest, steps)
        | inr (all, over) ↦ inr (omega (arith, all), over)
      ],
      (
        sent
            ∙ ap (λ ms. ms ++ sends json uuids wire s (take n rows))
                (push_one-marks x rows at rs p d).1
            ∙ append_assoc p.published (sends json uuids wire s (x ∷ []))
                (sends json uuids wire s (take n rows))
            ∙ ap (λ ms. p.published ++ ms) (sends-cons json uuids wire (λ _. at) s x (take n rows)),
        (rs', now_rows, both-Stamped (mark-Stamped x at rs) marked),
      ),
    )

    pusher-Stands :
        {p q : Plane Value} {n : ℕ} (rows : List (CmdRow Value)) (rs : List OutboxRow)
        → p.pusher ≡ pushing rows
        → p.app.database ≡ with_outbox rs
        → Undisturbed p n q
        → Stands rows n q × Wrote (take n rows) rs p.published q
    unfolding Stands Wrote sends push_one
    pusher-Stands {p} rows rs e d (still _) = (
      inl (omega arith, e, can_step p rows e),
      (sym (append-nil p.published), (rs, d, nothing_hit rs)),
    )
    pusher-Stands {p} rows rs e d (first busy (wake e' n) u) = absurd (busy e')
    pusher-Stands {p} rows rs e d (first busy (timer e') u) = absurd (busy e')
    pusher-Stands {p} [] rs e d (first busy (rest e') (still _)) =
        (inr (omega arith, refl), (sym (append-nil p.published), (rs, d, nothing_hit rs)))
    pusher-Stands {p} rows rs e d (first busy (rest e') (first busy' t u)) = absurd (busy' refl)
    pusher-Stands {p} (x ∷ rows) rs e d (first busy (rest e') u) =
        absurd (cons-ne-nil (pushing_inj (sym e ∙ e')))
    pusher-Stands {p} {q} {n} rows rs e d (first {n = m} busy (push x rows' at e') u) =
        subst (λ all. Stands all (suc m) q × Wrote (take (suc m) all) rs p.published q)
          (pushing_inj (sym e' ∙ e))
          (one_more x rows' at rs m p q d (
            pusher-Stands rows' (mark json uuids wire (λ _. at) s x rs) refl
              (push_one-marks x rows' at rs p d).0 u))

  -- The pusher alone, after it has fetched the rows of a drain: every run takes at most one step
  -- more than there are rows, and can go on for as long as it has not taken that many, at which it
  -- is at rest. After each number of steps it has sent exactly the messages of the rows that it has
  -- taken, of those that have a device and a wire form and whose put succeeds, in their order, and
  -- has changed the database only by a stamp on those rows that were undelivered.
  pub fetched-rests :
      (p q : Plane Value) (now n : ℕ)
      → p.pusher ≡ starts
      → Undisturbed (record p { pusher = pushing (due_rows json uuids details wire now p) }) n q
      → (((n ≤ length (due_rows json uuids details wire now p))
            × (q.pusher ≡ pushing (drop n (due_rows json uuids details wire now p)))
            × ((r : Plane Value) × Turn json uuids details wire q r))
          ⊎ ((n ≡ suc (length (due_rows json uuids details wire now p))) × (q.pusher ≡ waits)))
        × (q.published
            ≡ p.published
              ++ sends json uuids wire p.app.database
                  (take n (due_rows json uuids details wire now p)))
        × ((rs : List OutboxRow) × (q.app.database ≡ record p.app.database { cmd_outbox = rs })
            × Stamped
                (hit p.app.database (take n (due_rows json uuids details wire now p)))
                p.app.database.cmd_outbox
                rs)
  unfolding Stands Wrote with_outbox
  fetched-rests p q now n e u =
      let (stands, (sent, (rs, now_rows, marked))) =
        pusher-Stands p.app.database (due_rows json uuids details wire now p)
          p.app.database.cmd_outbox refl refl u in
      (stands, sent, (rs, now_rows, marked))
