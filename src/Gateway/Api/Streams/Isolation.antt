-- ===== src/Gateway/Api/Streams/Isolation.antt =====
-- What a subscriber of the streams sees.
use codeless_workspace.Base.{
  ℕ, ◌≡◌, refl, sym, ◌∙◌, ◌≢◌, inl, inr, Bool, true, false, ◌&&◌, Option, none, some, List, [], ◌∷◌,
  arith, ◌==◌, Bool-cases, Option-cases, Text, ==_refl, filter_map,
}
use codeless_workspace.Gateway.Api.Glob.{glob_match}
use codeless_workspace.Gateway.Api.Streams.{
  StreamQuery, Received, event_frame, events_stream, passes, wants_event, message, lagged,
}
use codeless_workspace.Gateway.Db.Messages.{EventRow, LogRow}
use codeless_workspace.Gateway.FanIn.{event_row, log_row}
use codeless_workspace.Gateway.Schema.{User}

pub none-some : {A : Type 0} {a : A} → none ≢ some a
none-some e = cc

and_true : (a b : Bool) → (a && b) ≡ true → (a ≡ true) × (b ≡ true)
and_true true b h = (refl, h)
and_true false b h = cc

module _ {V : Type 0} (event_json : EventRow V → Option Text) (log_json : LogRow V → Option Text)
    (caller : User) (q : StreamQuery) where
  -- The event of a received item that a subscriber may see and asked for.
  pub data IsSeen : Received V → Text → Type 0 where
    seen :
        (row : EventRow V) (frame : Text)
        → passes (λ (d : ℕ). row.device_id == d) q.device ≡ true
        → passes (λ (g : Text). glob_match g row.topic) q.topic ≡ true
        → event_json row ≡ some frame
        → IsSeen (message (event_row caller.org_id row)) frame

  wanted_parts :
      (org_id : ℕ) (row : EventRow V)
      → wants_event caller.org_id q org_id row ≡ true
      → (org_id ≡ caller.org_id)
        × (passes (λ (d : ℕ). row.device_id == d) q.device ≡ true)
        × (passes (λ (g : Text). glob_match g row.topic) q.topic ≡ true)
  unfolding wants_event
  wanted_parts org_id row h =
      let (a, b) = and_true (org_id == caller.org_id) _ h in
      let (b, c) = and_true (passes (λ (d : ℕ). row.device_id == d) q.device) _ b in
      (ground (arith, a), b, c)

  seen_at :
      (org_id : ℕ) (row : EventRow V) (frame : Text)
      → wants_event caller.org_id q org_id row ≡ true
      → event_json row ≡ some frame
      → IsSeen (message (event_row org_id row)) frame
  seen_at org_id row frame h e =
      let (a, b, c) = wanted_parts org_id row h in rw a (seen row frame b c e)

  event_frame-IsSeen :
      (x : Received V) (frame : Text)
      → event_frame event_json log_json caller.org_id q x ≡ some frame
      → IsSeen x frame
  unfolding event_frame
  event_frame-IsSeen (message (event_row org_id row)) frame h =
      elim (Bool-cases (wants_event caller.org_id q org_id row)) [
        | inl w ↦ seen_at org_id row frame w (sym (rw w refl) ∙ h)
        | inr w ↦ absurd (none-some (sym (rw w refl) ∙ h))
      ]
  event_frame-IsSeen (message (log_row org_id row)) frame h = cc
  event_frame-IsSeen (lagged n) frame h = cc

  -- Every frame comes from what was received, in order.
  pub data Shown : List (Received V) → List Text → Type 0 where
    over : Shown [] []
    shows :
        {x : Received V} {frame : Text} {xs : List (Received V)} {frames : List Text}
        → IsSeen x frame
        → Shown xs frames
        → Shown (x ∷ xs) (frame ∷ frames)
    skips :
        {x : Received V} {xs : List (Received V)} {frames : List Text}
        → ((frame : Text) → ¬ (IsSeen x frame))
        → Shown xs frames
        → Shown (x ∷ xs) frames

  IsSeen-event_frame :
      (x : Received V) (frame : Text)
      → IsSeen x frame
      → event_frame event_json log_json caller.org_id q x ≡ some frame
  unfolding event_frame wants_event
  IsSeen-event_frame _ _ (seen row frame a b e) = rw (==_refl caller.org_id, a, b) e

  -- A subscriber of the events gets a frame for exactly those messages of the bus that are events of
  -- its own organisation, of the device and the topics that it asked for, and that can be encoded;
  -- the frames come in the order of the messages, and what lagged is skipped.
  pub events_stream-Shown :
      (received : List (Received V))
      → Shown received (events_stream event_json log_json caller q received)
  unfolding events_stream filter_map
  events_stream-Shown [] = over
  events_stream-Shown (x ∷ xs) =
      elim (Option-cases (event_frame event_json log_json caller.org_id q x)) [
        | inl out ↦ rw out (
            skips (λ frame h. none-some (sym out ∙ IsSeen-event_frame x frame h))
              (events_stream-Shown xs))
        | inr (frame, e) ↦ rw e (shows (event_frame-IsSeen x frame e) (events_stream-Shown xs))
      ]
