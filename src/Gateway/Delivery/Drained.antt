-- ===== src/Gateway/Delivery/Drained.antt =====
-- What `drain_pending` of hackline/crates/hackline-gateway/src/cmd_delivery.rs publishes and marks.
use codeless_workspace.Base.{
  ℕ, ◌≡◌, refl, ap, ◌∙◌, ◌&&◌, Option, none, some, List, map, arith, if◌then◌else◌, Text, is_some,
  ◌>>=?◌, Distinct, select,
}
use codeless_workspace.Gateway.Db.CmdOutbox.{CmdRow, row_to_cmd, undelivered}
use codeless_workspace.Gateway.Db.CmdOutbox.Effects.{row_of}
use codeless_workspace.Gateway.Db.CmdOutbox.Inv.{row_cmd_id}
use codeless_workspace.Gateway.Delivery.{Wire, drain_pending}
use codeless_workspace.Gateway.Delivery.Marks.{hits, find-marks, due_hits}
use codeless_workspace.Gateway.Delivery.Pushes.{
  is_due, stamp, goes, sends, with_rows, marks, pushed_all,
}
use codeless_workspace.Gateway.Error.{ok}
use codeless_workspace.Gateway.Json.{Json}
use codeless_workspace.Gateway.Schema.{Database, OutboxRow}
use codeless_workspace.Proto.Uuid.{Uuids}

module _ (json : Json) (uuids : Uuids) (wire : Wire uuids.Uuid json.Value) (clock : Text → ℕ)
    (s : Database) where
  open json use {Value}

  -- With every command id on one row, a drain publishes the messages of the due rows in the order
  -- of the table, and marks a row delivered exactly if it is due and its message went out: an
  -- expired or delivered row stays as it is, and so does one that fails on the way.
  pub drain_pending_lem :
      (now : ℕ)
      → Distinct row_cmd_id s.cmd_outbox
      → ((drain_pending json uuids wire clock now s).0
          ≡ ok (
              sends json uuids wire s
                (map (row_to_cmd json now) (select (is_due now) s.cmd_outbox))))
        × ((c : Text)
            → row_of (drain_pending json uuids wire clock now s).1 c ≡ (
                row_of s c >>=? λ r. some (
                  if is_due now r && is_some (goes json uuids wire s (row_to_cmd json now r))
                  then stamp (clock c) r
                  else r)))
  unfolding drain_pending is_due with_rows
  drain_pending_lem now d = (
    ap (λ r. r.0) drained,
    λ c.
        ap (λ r. row_of r.1 c) drained
        ∙ find-marks json uuids wire clock s c due s.cmd_outbox
        ∙ each c (row_of s c) refl,
  )
    where
      due : List (CmdRow Value)
      due = map (row_to_cmd json now) (select (is_due now) s.cmd_outbox)

      drained : drain_pending json uuids wire clock now s ≡ (
        ok (sends json uuids wire s due),
        with_rows json uuids wire clock s (marks json uuids wire clock s due s.cmd_outbox),
      )
      drained = pushed_all json uuids wire clock s due s.cmd_outbox

      each :
          (c : Text) (o : Option OutboxRow)
          → row_of s c ≡ o
          → (o >>=? λ r. some (
              if undelivered r && hits json uuids wire clock s c due then stamp (clock c) r else r))
            ≡ (o >>=? λ r. some (
                if is_due now r && is_some (goes json uuids wire s (row_to_cmd json now r))
                then stamp (clock c) r
                else r))
      each c none e = refl
      each c (some r) e =
          ap some (rw (due_hits json uuids wire clock s c now s.cmd_outbox d r e) (ground arith))
