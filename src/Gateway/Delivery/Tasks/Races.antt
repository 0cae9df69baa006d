-- ===== src/Gateway/Delivery/Tasks/Races.antt =====
-- A cancellation that comes while the pusher holds the row.
use codeless_workspace.Base.{
  ℕ, ◌≡◌, refl, ap, ◌∙◌, Option, none, some, List, [], ◌∷◌, ◌++◌, ◌==◌, ◌>>=?◌, find_row, some_inj,
  Bool, true, false, is_some, All, subst, sym, Text, codes, ◌≢◌,
}
use codeless_workspace.Gateway.Api.Cmd.{cancel_handler, cancelled}
use codeless_workspace.Gateway.Api.Detail.{Details, cmd_cancelled}
use codeless_workspace.Gateway.Auth.Scope.{check_device}
use codeless_workspace.Gateway.Db.Audit.Writes.{insert-AuditOnly, AuditOnly}
use codeless_workspace.Gateway.Db.CmdOutbox.{cancel, CmdRow, get_by_cmd_id, has_cmd_id}
use codeless_workspace.Gateway.Db.CmdOutbox.Effects.{waits, cancel_lem}
use codeless_workspace.Gateway.Db.CmdOutbox.Keeps.{enqueue-Preserves}
use codeless_workspace.Gateway.Db.Devices.{get_with_org_slug, with_org_slug, in_org}
use codeless_workspace.Gateway.Delivery.{Wire, push_row}
use codeless_workspace.Gateway.Delivery.Pushes.{with_rows, goes, pushed, sends, goes_from}
use codeless_workspace.Gateway.Delivery.Tasks.{push_one, Plane, pushing, Turn, push}
use codeless_workspace.Gateway.Delivery.Tasks.Requests.{Kept, cancel_handler-Preserves}
use codeless_workspace.Gateway.Error.{err, ok, not_found, or_empty, GatewayError, Result}
use codeless_workspace.Gateway.Exec.{Exec, or_raise}
use codeless_workspace.Gateway.Exec.Preserves.{Preserves}
use codeless_workspace.Gateway.Json.{Json}
use codeless_workspace.Gateway.Schema.{Database, User, Device, Org, OutboxRow}
use codeless_workspace.Gateway.State.{AppState, notify, on_db}
use codeless_workspace.Proto.Uuid.{Uuids}
use codeless_workspace.Gateway.Db.Devices

-- The tables that a message is looked up in are those of `o`.
record SameRoutes (o s : Database) : Type 0 where
  devices : s.devices ≡ o.devices
  orgs : s.orgs ≡ o.orgs

unfoldable Routed : Database → AppState → Type 0
Routed o s = SameRoutes o s.database

module _ (json : Json) (o : Database) where
  unrouted : (s s' : Database) → AuditOnly s s' → SameRoutes o s → SameRoutes o s'
  unrouted s s' e h = rw e (record { devices = h.devices; orgs = h.orgs })

  cancel-SameRoutes : (c : Text) → Preserves (SameRoutes o) (cancel c)
  unfolding cancel
  cancel-SameRoutes c s h = record { devices = h.devices; orgs = h.orgs }

  on_db-Routed :
      (A : Type 0) (m : Exec Database A)
      → Preserves (SameRoutes o) m
      → Preserves (Routed o) (on_db m)
  unfolding Routed
  on_db-Routed A m k s h = k s.database h

  notify-Routed : (s : AppState) → Routed o s → Routed o (notify s)
  unfolding Routed
  notify-Routed s h = h

  routed : Kept json (SameRoutes o) (Routed o)
  routed = record {
    on = on_db-Routed;
    told = notify-Routed;
    audited = unrouted;
    queued = λ c d topic ct v t e.
        enqueue-Preserves (SameRoutes o) (λ s rows h. record { devices = h.devices; orgs = h.orgs })
          json c d topic ct v t e;
    dropped = cancel-SameRoutes;
  }

err-ok : {e : GatewayError} → Result.err e ≢ ok (tt {0})
err-ok e = cc

found_same :
    (o s : Database) (x : Option (Device × Text))
    → (or_raise x not_found s).0 ≡ (or_raise x not_found o).0
found_same o s none = refl
found_same o s (some d) = refl

abbrev joined : List Device → List Org → ℕ → Option (Device × Text)
joined devices orgs d = find_row (λ (e : Device). e.id == d) devices >>=? λ e.
    find_row (λ (x : Org). x.id == e.org_id) orgs >>=? λ x. some (e, x.slug)

lookup-SameRoutes :
    (o s : Database)
    → SameRoutes o s
    → (d : ℕ) → (get_with_org_slug d s).0 ≡ (get_with_org_slug d o).0
unfolding get_with_org_slug with_org_slug
lookup-SameRoutes o s h d =
    found_same o s (joined s.devices s.orgs d)
    ∙ (λ i. (or_raise (joined (h.devices i) (h.orgs i) d) not_found o).0)

module _ (json : Json) (uuids : Uuids) (details : Details) (wire : Wire uuids.Uuid json.Value) where
  open json use {Value}

  goes-SameRoutes :
      (o s : Database) (x : CmdRow Value)
      → SameRoutes o s
      → goes json uuids wire s x ≡ goes json uuids wire o x
  unfolding goes
  goes-SameRoutes o s x h =
      ap (goes_from json uuids wire x) (lookup-SameRoutes o s h x.row.device_id)

  sends-one :
      (s : Database) (x : CmdRow Value) (message : Text × Text)
      → goes json uuids wire s x ≡ some message
      → sends json uuids wire s (x ∷ []) ≡ message ∷ []
  unfolding sends
  sends-one s x message e = go (goes json uuids wire s x) e
    where
      go :
          (m : Option (Text × Text))
          → m ≡ some message
          → elim m as (λ _. List (Text × Text)) [ none ↦ [] | some m ↦ m ∷ [] ] ≡ message ∷ []
      go none e = cc
      go (some m) e = ap (λ x. x ∷ []) (some_inj e)

  module _ (user : User) (c : Text) (now epoch : ℕ) where
    -- An undelivered row of the command stood there, and none is left.
    Dropped : AppState → AppState → Type 0
    Dropped s s' =
        (is_some (find_row (waits c) s.database.cmd_outbox) ≡ true)
        × All (λ r. waits c r ≡ false) s'.database.cmd_outbox

    cancelled-Dropped :
        (d : ℕ) (s : AppState) (deleted : Bool)
        → is_some (find_row (waits c) s.database.cmd_outbox) ≡ deleted
        → (cancelled json details user d c deleted epoch (on_db (cancel c) s).1).0 ≡ ok tt
        → Dropped s (cancelled json details user d c deleted epoch (on_db (cancel c) s).1).1
    unfolding cancelled Dropped
    cancelled-Dropped d s false e h = cc
    cancelled-Dropped d s true e h = (
      e,
      subst (λ rows. All (λ r. waits c r ≡ false) rows)
          (sym (
            ap (λ (q : Database). q.cmd_outbox)
              (insert-AuditOnly (some user.id) (some d) none (codes "cmd.cancel")
                (some (details.render (cmd_cancelled c))) epoch (cancel c s.database).1)))
          (cancel_lem c s.database).1,
    )

    cancel_handler-Dropped :
        (s : AppState)
        → (cancel_handler json details user c now epoch s).0 ≡ ok tt
        → Dropped s (cancel_handler json details user c now epoch s).1
    unfolding cancel_handler get_by_cmd_id Devices.get_in_org cancel waits
    cancel_handler-Dropped s = go (find_row (has_cmd_id c) s.database.cmd_outbox) refl
      where
        owned :
            (r : OutboxRow) (d : Option Device)
            → find_row (has_cmd_id c) s.database.cmd_outbox ≡ some r
            → check_device json user r.device_id ≡ ok tt
            → find_row (in_org user.org_id r.device_id) s.database.devices ≡ d
            → (cancel_handler json details user c now epoch s).0 ≡ ok tt
            → Dropped s (cancel_handler json details user c now epoch s).1
        owned r none e may own h = absurd (err-ok {e = not_found} (sym (rw (e, may, own) refl) ∙ h))
        owned r (some d) e may own h =
            rw (e, may, own)
              (cancelled-Dropped r.device_id s _ refl (sym (rw (e, may, own) refl) ∙ h))

        allowed :
            (r : OutboxRow) (m : Result (Unit {0}))
            → find_row (has_cmd_id c) s.database.cmd_outbox ≡ some r
            → check_device json user r.device_id ≡ m
            → (cancel_handler json details user c now epoch s).0 ≡ ok tt
            → Dropped s (cancel_handler json details user c now epoch s).1
        allowed r (err x) e may h = absurd (err-ok {e = x} (sym (rw (e, may) refl) ∙ h))
        allowed r (ok u) e may h =
            owned r (find_row (in_org user.org_id r.device_id) s.database.devices) e may refl h

        go :
            (o : Option OutboxRow)
            → find_row (has_cmd_id c) s.database.cmd_outbox ≡ o
            → (cancel_handler json details user c now epoch s).0 ≡ ok tt
            → Dropped s (cancel_handler json details user c now epoch s).1
        go none e h = absurd (err-ok {e = not_found} (sym (rw e refl) ∙ h))
        go (some r) e h = allowed r (check_device json user r.device_id) e refl h

  -- A cancellation that answers that the command is cancelled does not stop a message that the pusher
  -- has in hand: an undelivered row of the command was there and none is left, and yet, where the
  -- row stands first in the pusher's hand and its message would go out, the pusher's next step can
  -- be to publish it.
  pub cancel_loses :
      (p : Plane Value) (x : CmdRow Value) (rows : List (CmdRow Value)) (at : ℕ)
      (message : Text × Text) (user : User) (now epoch : ℕ)
      → p.pusher ≡ pushing (x ∷ rows)
      → goes json uuids wire p.app.database x ≡ some message
      → (cancel_handler json details user x.row.cmd_id now epoch p.app).0 ≡ ok tt
      → (is_some (find_row (waits x.row.cmd_id) p.app.database.cmd_outbox) ≡ true)
        × All
            (λ r. waits x.row.cmd_id r ≡ false)
            (cancel_handler json details user x.row.cmd_id now epoch p.app).1.database.cmd_outbox
        × ((q : Plane Value) × Turn json uuids details wire
              (record p { app = (cancel_handler json details user x.row.cmd_id now epoch p.app).1 })
              q
            × (q.published ≡ p.published ++ message ∷ []))
  unfolding push_one with_rows Dropped
  cancel_loses p x rows at message user now epoch inhand out answered =
      let s : AppState = (cancel_handler json details user x.row.cmd_id now epoch p.app).1 in
      let h : SameRoutes p.app.database s.database =
        unfold Routed in
        cancel_handler-Preserves json details (SameRoutes p.app.database) (Routed p.app.database)
          (routed json p.app.database) user x.row.cmd_id now epoch p.app
          (record { devices = refl; orgs = refl }) in
      let sent : (push_row json uuids wire (λ _. at) x s.database).0 ≡ ok (message ∷ []) =
        ap (λ r. r.0) (pushed json uuids wire (λ _. at) s.database x s.database.cmd_outbox)
        ∙ ap ok (
            sends-one s.database x message (goes-SameRoutes p.app.database s.database x h ∙ out)) in
      let (stood, gone) = cancel_handler-Dropped user x.row.cmd_id now epoch p.app answered in
      (
        stood,
        gone,
        (
          push_one json uuids details wire x rows at (record p { app = s }),
          push x rows at inhand,
          ap (λ r. p.published ++ or_empty r) sent,
        ),
      )
