-- ===== src/Gateway/Delivery/Pushes.antt =====
-- What the loop of `drain_pending` does to the outbox and to the wire, row by row.
use codeless_workspace.Base.{
  ℕ, ◌+◌, ◌≡◌, refl, ap, inl, inr, Bool, ◌&&◌, Option, none, some, List, [], ◌∷◌, ◌++◌, ltb, ◌==◌,
  if◌then◌else◌, Bool-cases, Text, is_some, ◌>>=?◌, find_row, update_rows,
}
use codeless_workspace.Gateway.Db.CmdOutbox.{CmdRow, has_cmd_id, undelivered, mark_delivered}
use codeless_workspace.Gateway.Db.Devices.{get_with_org_slug, with_org_slug}
use codeless_workspace.Gateway.Delivery.{Wire, looked_up, publish, push_row, push_rows}
use codeless_workspace.Gateway.Error.{ok, not_found, Result}
use codeless_workspace.Gateway.Exec.{or_raise}
use codeless_workspace.Gateway.Json.{Json}
use codeless_workspace.Gateway.Schema.{Database, OutboxRow, Device}
use codeless_workspace.Proto.Uuid.{Uuids}

-- what list_pending selects
unfoldable pub is_due : ℕ → OutboxRow → Bool
is_due now r = undelivered r && ltb now r.expires_at

abbrev pub stamp : ℕ → OutboxRow → OutboxRow
stamp at r = record r { delivered_at = some at; attempts = r.attempts + 1 }

module _ (json : Json) (uuids : Uuids) (wire : Wire uuids.Uuid json.Value) where
  open json use {Value}

  accepted : Option (Text × Text) → Option (Text × Text)
  accepted none = none
  accepted (some (ke, bytes)) = if wire.put ke bytes then some (ke, bytes) else none

  unfoldable pub goes_from : CmdRow Value → Result (Device × Text) → Option (Text × Text)
  unfolding accepted looked_up
  goes_from r found = accepted (looked_up json uuids wire r found)

  -- The message that goes out for a row: its device is there, with an id that parses, its command
  -- id parses, the envelope can be encoded, and the session takes it.
  unfoldable pub goes : Database → CmdRow Value → Option (Text × Text)
  unfolding goes_from get_with_org_slug
  goes s r = goes_from r (get_with_org_slug r.row.device_id s).0

  -- The messages of a list of rows, in order.
  unfoldable pub sends : Database → List (CmdRow Value) → List (Text × Text)
  sends s [] = []
  sends s (r ∷ rows) = elim (goes s r) [ none ↦ sends s rows | some m ↦ m ∷ sends s rows ]

  module _ (clock : Text → ℕ) (s : Database) where
    unfoldable pub with_rows : List OutboxRow → Database
    with_rows rows = record s { cmd_outbox = rows }

    unfoldable pub mark : CmdRow Value → List OutboxRow → List OutboxRow
    mark x rows =
        if is_some (goes s x)
        then update_rows (λ r. has_cmd_id x.row.cmd_id r && undelivered r)
            (stamp (clock x.row.cmd_id)) rows
        else rows

    unfoldable pub marks : List (CmdRow Value) → List OutboxRow → List OutboxRow
    marks [] rows = rows
    marks (x ∷ xs) rows = marks xs (mark x rows)

    published :
        (x : CmdRow Value) (rows : List OutboxRow) (o : Option (Text × Text))
        → publish json uuids wire x o (clock x.row.cmd_id) (with_rows rows) ≡ (
          ok (elim (accepted o) [ none ↦ [] | some m ↦ m ∷ [] ]),
          with_rows (
              if is_some (accepted o)
              then update_rows
                  (λ r. has_cmd_id x.row.cmd_id r && undelivered r)
                  (stamp (clock x.row.cmd_id))
                  rows
              else rows),
        )
    unfolding publish accepted with_rows mark_delivered
    published x rows none = refl
    published x rows (some (ke, bytes)) = elim (Bool-cases (wire.put ke bytes)) [
      | inl e ↦ rw e refl
      | inr e ↦ rw e refl
    ]

    same_lookup :
        (d : ℕ) (rows : List OutboxRow)
        → (get_with_org_slug d (with_rows rows)).0 ≡ (get_with_org_slug d s).0
    unfolding get_with_org_slug with_rows
    same_lookup d rows =
        answers (find_row (λ (e : Device). e.id == d) s.devices >>=? with_org_slug s)
      where
        answers :
            (o : Option (Device × Text))
            → (or_raise o not_found (with_rows rows)).0 ≡ (or_raise o not_found s).0
        answers none = refl
        answers (some p) = refl

    pub pushed :
        (x : CmdRow Value) (rows : List OutboxRow)
        → push_row json uuids wire clock x (with_rows rows)
          ≡ (ok (sends s (x ∷ [])), with_rows (mark x rows))
    unfolding push_row goes goes_from with_rows mark sends
    pushed x rows =
        rw (same_lookup x.row.device_id rows)
          (published x rows (looked_up json uuids wire x (get_with_org_slug x.row.device_id s).0))

    pub sends-cons :
        (x : CmdRow Value) (xs : List (CmdRow Value))
        → sends s (x ∷ []) ++ sends s xs ≡ sends s (x ∷ xs)
    unfolding sends
    sends-cons x xs = go (goes s x)
      where
        go :
            (o : Option (Text × Text))
            → elim o as (λ _. List (Text × Text)) [ none ↦ [] | some m ↦ m ∷ [] ] ++ sends s xs
              ≡ elim o as (λ _. List (Text × Text)) [ none ↦ sends s xs | some m ↦ m ∷ sends s xs ]
        go none = refl
        go (some m) = refl

    pub pushed_all :
        (xs : List (CmdRow Value)) (rows : List OutboxRow)
        → push_rows json uuids wire clock xs (with_rows rows)
          ≡ (ok (sends s xs), with_rows (marks xs rows))
    unfolding push_rows marks sends
    pushed_all [] rows = refl
    pushed_all (x ∷ xs) rows =
        rw (pushed x rows, pushed_all xs (mark x rows))
          (ap (λ m. (ok m, with_rows (marks xs (mark x rows)))) (sends-cons x xs))
