-- ===== src/Gateway/Delivery/Tasks.antt =====
-- The tasks of hackline/crates/hackline-gateway/src/cmd_delivery.rs beside the handlers: every
-- interleaving, a row of a drain at a time.
pub mod Requests
pub mod Safe
pub mod Wakeups
pub mod Drains
pub mod Races
use codeless_workspace.Base.{
  ℕ, zero, suc, ◌+◌, ◌-◌, ◌*◌, ◌/◌, ◌%◌, ◌^◌, ◌≤◌, ◌<◌, min, max, String, ◌≡◌, refl, sym, ap, ◌∙◌,
  ◌≢◌, ◌↔◌, ◌⊎◌, inl, inr, Bool, true, false, not, ◌&&◌, ◌||◌, Option, none, some, List, [], ◌∷◌,
  ◌++◌, map, reverse, arith, ltb, leb, ◌==◌, if◌then◌else◌, Bool-cases, Option-cases, Text, codes,
  ◌=t◌, =t_iff, =t_refl, =t_sound, All, length, true-ne-false, is_some, is_none, unwrap_or, ◌>>=?◌,
  select,
}
use codeless_workspace.Gateway.Api.Cmd.{SendCmd, send, cancel_handler}
use codeless_workspace.Gateway.Api.Detail.{Details}
use codeless_workspace.Gateway.Db.CmdOutbox.{CmdRow, row_to_cmd, list_pending, enqueue, cancel}
use codeless_workspace.Gateway.Delivery.{Wire, push_row, handle_ack}
use codeless_workspace.Gateway.Delivery.Pushes.{is_due}
use codeless_workspace.Gateway.Error.{Result, ok, err, or_empty}
use codeless_workspace.Gateway.Json.{Json}
use codeless_workspace.Gateway.Schema.{User}
use codeless_workspace.Gateway.State.{AppState, on_db, notify}
use codeless_workspace.Proto.Uuid.{Uuids}
use codeless_workspace.Gateway.Db.Audit

-- Where the loop of the pusher stands: before `drain_pending`, in its loop with the rows that are
-- left, or in the `select!`.
pub data Pusher (V : Type 0) : Type 0 where
  starts : Pusher V
  pushing : List (CmdRow V) → Pusher V
  waits : Pusher V

-- The shared state, the pusher, and what it has published, oldest first.
pub record Plane (V : Type 0) : Type 0 where
  pub app : AppState
  pub pusher : Pusher V
  pub published : List (Text × Text)

module _ (json : Json) (uuids : Uuids) (details : Details) where
  open json use {Value}
  open uuids use {Uuid}

  module _ (wire : Wire Uuid Value) where
    unfoldable pub due_rows : ℕ → Plane Value → List (CmdRow Value)
    unfolding list_pending
    due_rows now p = or_empty (list_pending json now p.app.database).0

    unfoldable pub push_one : CmdRow Value → List (CmdRow Value) → ℕ → Plane Value → Plane Value
    unfolding push_row
    push_one x rows at p = record p {
      app = (on_db (push_row json uuids wire (λ _. at) x) p.app).1;
      pusher = pushing rows;
      published = p.published ++ or_empty (on_db (push_row json uuids wire (λ _. at) x) p.app).0;
    }

    unfoldable pub woken : Plane Value → Plane Value
    woken p = record p { pusher = starts; app = record p.app { cmd_notified = false } }

    -- What others do, with a connection of the pool for each closure: the closures of the handlers
    -- that send and cancel, which change the database, and the wake-up, in whatever order and
    -- without the guards between them; a handler that nothing disturbs; and the task of
    -- acknowledgements.
    pub data Request (p : Plane Value) : Plane Value → Type 0 where
      stores :
          (cmd_id : Text) (device_id : ℕ) (topic ct : Text) (payload : Value) (now ends : ℕ)
          → Request p (record p {
            app = (on_db (enqueue json cmd_id device_id topic ct payload now ends) p.app).1;
          })
      drops : (cmd_id : Text) → Request p (record p { app = (on_db (cancel cmd_id) p.app).1 })
      audits :
          (user_id device_id tunnel_id : Option ℕ) (action : Text) (detail : Option Text)
          (epoch : ℕ)
          → Request p (record p {
            app = (on_db (Audit.insert user_id device_id tunnel_id action detail epoch) p.app).1;
          })
      wakes : Request p (record p { app = notify p.app })
      sends :
          (user : User) (device_id : ℕ) (topic : Text) (body : SendCmd Value) (cmd_id : Text)
          (now epoch : ℕ)
          → Request p (record p {
            app = (send json details user device_id topic body cmd_id now epoch p.app).1;
          })
      cancels :
          (user : User) (cmd_id : Text) (now epoch : ℕ)
          → Request p
              (record p { app = (cancel_handler json details user cmd_id now epoch p.app).1 })
      acks :
          (ke payload : Text) (now : ℕ)
          → Request p
              (record p { app = (on_db (handle_ack json uuids wire ke payload now) p.app).1 })

    -- A step of the pusher that does not look for rows.
    pub data Turn (p : Plane Value) : Plane Value → Type 0 where
      push :
          (x : CmdRow Value) (rows : List (CmdRow Value)) (at : ℕ)
          → p.pusher ≡ pushing (x ∷ rows)
          → Turn p (push_one x rows at p)
      rest : p.pusher ≡ pushing [] → Turn p (record p { pusher = waits })
      wake : p.pusher ≡ waits → p.app.cmd_notified ≡ true → Turn p (woken p)
      timer : p.pusher ≡ waits → Turn p (record p { pusher = starts })

    pub data Step (p : Plane Value) : Plane Value → Type 0 where
      request : {q : Plane Value} → Request p q → Step p q
      turn : {q : Plane Value} → Turn p q → Step p q
      -- list_pending, at the start of a drain
      fetch :
          (now : ℕ) → p.pusher ≡ starts → Step p (record p { pusher = pushing (due_rows now p) })

    pub data Reach (p : Plane Value) : Plane Value → Type 0 where
      here : Reach p p
      after : {q r : Plane Value} → Reach p q → Step q r → Reach p r
