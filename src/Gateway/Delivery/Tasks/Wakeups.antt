-- ===== src/Gateway/Delivery/Tasks/Wakeups.antt =====
-- No wake-up of the pusher is lost, and it comes to look for rows again after boundedly many of its
-- own steps.
use codeless_workspace.Base.{
  ℕ, suc, ◌+◌, ◌≤◌, ◌≡◌, refl, sym, ◌∙◌, ◌≢◌, ◌⊎◌, inl, inr, true, not, List, [], ◌∷◌, arith, Text,
  length, unwrap_or,
}
use codeless_workspace.Gateway.Api.Cmd.{send, SendCmd, saturating_add, ttl_of, is_empty}
use codeless_workspace.Gateway.Api.Detail.{Details}
use codeless_workspace.Gateway.Auth.Scope.{check_device}
use codeless_workspace.Gateway.Db.CmdOutbox.{CmdRow, enqueue}
use codeless_workspace.Gateway.Delivery.{Wire}
use codeless_workspace.Gateway.Delivery.Tasks.{
  waits, Pusher, Plane, starts, pushing, push_one, Request, Turn, woken, sends, cancels, push, acks,
  rest, wake, timer, stores, drops, audits, wakes,
}
use codeless_workspace.Gateway.Delivery.Tasks.Requests.{
  Kept, send-Preserves, cancel_handler-Preserves,
}
use codeless_workspace.Gateway.Error.{bad_request, Result, ok, err, topic_empty}
use codeless_workspace.Gateway.Exec.{Exec, continue, lift, require}
use codeless_workspace.Gateway.Json.{Json}
use codeless_workspace.Gateway.Schema.{User}
use codeless_workspace.Gateway.State.{AppState, on_db}
use codeless_workspace.Proto.Msg.{content_type_json}
use codeless_workspace.Proto.Uuid.{Uuids}
use codeless_workspace.Gateway.Db.Devices

-- The pusher is about to look for rows, or has a wake-up to take.
abbrev pub Awake : {V : Type 0} → Plane V → Type 0
Awake p = (p.pusher ≡ starts) ⊎ (p.app.cmd_notified ≡ true)

-- How many steps the pusher may still take before it looks for rows.
unfoldable pub lag : {V : Type 0} → Pusher V → ℕ
lag starts = 0
lag (pushing rows) = suc (suc (length rows))
lag waits = 1

unfoldable Notified : AppState → Type 0
Notified s = s.cmd_notified ≡ true

notified : (json : Json) → Kept json (λ s. Unit {0}) Notified
unfolding Notified
notified json = record {
  on = λ A m k s h. h;
  told = λ s h. refl;
  audited = λ s s' e h. tt;
  queued = λ c d topic ct v t e s h. tt;
  dropped = λ c s h. tt;
}

pushing-starts : {V : Type 0} {rows : List (CmdRow V)} → Pusher.pushing rows ≢ starts
pushing-starts e = cc

-- A chain that answers ends with a wake-up, if what follows its first action does.
continue-Answers :
    {A B : Type 0} (r : Result A × AppState) (f : A → Exec AppState B)
    → ((a : A) (s : AppState) (b : B) → (f a s).0 ≡ ok b → (f a s).1.cmd_notified ≡ true)
    → (b : B) → (continue r f).0 ≡ ok b
    → (continue r f).1.cmd_notified ≡ true
continue-Answers (ok a, s) f k b h = k a s b h
continue-Answers (err e, s) f k b h = cc

module _ (json : Json) (uuids : Uuids) (details : Details) (wire : Wire uuids.Uuid json.Value) where
  open json use {Value}

  -- Requests and steps of the pusher, none of which looks for rows: how many are the pusher's.
  pub data Quiet (p : Plane Value) : Plane Value → ℕ → Type 0 where
    begin : Quiet p p 0
    asks :
        {q r : Plane Value} {n : ℕ}
        → Quiet p q n
        → Request json uuids details wire q r
        → Quiet p r n
    turns :
        {q r : Plane Value} {n : ℕ}
        → Quiet p q n
        → Turn json uuids details wire q r
        → Quiet p r (suc n)

  Request-Awake :
      {p q : Plane Value}
      → Request json uuids details wire p q
      → Awake p
      → Awake q × (lag q.pusher ≡ lag p.pusher)
  Request-Awake (stores cmd_id device_id topic ct payload now ends) h = (h, refl)
  Request-Awake (drops cmd_id) h = (h, refl)
  Request-Awake (audits user_id device_id tunnel_id action detail epoch) h = (h, refl)
  Request-Awake wakes h = (inr refl, refl)
  Request-Awake (sends user device_id topic body cmd_id now epoch) (inl e) = (inl e, refl)
  Request-Awake (cancels user cmd_id now epoch) (inl e) = (inl e, refl)
  Request-Awake (acks ke payload now) h = (h, refl)
  Request-Awake {p} (sends user device_id topic body cmd_id now epoch) (inr e) = (
    inr (
        unfold Notified in
        send-Preserves json details (λ s. Unit {0}) Notified (notified json) user device_id topic
          body cmd_id now epoch p.app e),
    refl,
  )
  Request-Awake {p} (cancels user cmd_id now epoch) (inr e) = (
    inr (
        unfold Notified in
        cancel_handler-Preserves json details (λ s. Unit {0}) Notified (notified json) user cmd_id
          now epoch p.app e),
    refl,
  )

  Turn-Awake :
      {p q : Plane Value}
      → Turn json uuids details wire p q
      → Awake p
      → Awake q × (suc (lag q.pusher) ≡ lag p.pusher)
  unfolding lag push_one woken
  Turn-Awake {p} (push x rows at e) (inl e') = absurd (pushing-starts (sym e ∙ e'))
  Turn-Awake {p} (push x rows at e) (inr n) = (inr n, rw e refl)
  Turn-Awake (rest e) (inl e') = absurd (pushing-starts (sym e ∙ e'))
  Turn-Awake (rest e) (inr n) = (inr n, rw e refl)
  Turn-Awake (wake e n) h = (inl refl, rw e refl)
  Turn-Awake (timer e) h = (inl refl, rw e refl)

  -- While the pusher does not look for rows, each of its steps brings it one nearer, and no request
  -- drives it away.
  Quiet-Awake :
      {p q : Plane Value} {n : ℕ}
      → Awake p
      → Quiet p q n
      → Awake q × (n + lag q.pusher ≡ lag p.pusher)
  Quiet-Awake h begin = (h, omega arith)
  Quiet-Awake h (asks k r) =
      let (a, e) = Quiet-Awake h k in let (b, f) = Request-Awake r a in (b, rw f e)
  Quiet-Awake h (turns k t) =
      let (a, e) = Quiet-Awake h k in let (b, f) = Turn-Awake t a in (b, omega (arith, e, f))

  -- An awake pusher is about to look for rows, or can take a step.
  Awake-moves :
      (p : Plane Value)
      → Awake p
      → (p.pusher ≡ starts) ⊎ ((q : Plane Value) × Turn json uuids details wire p q)
  Awake-moves p (inl e) = inl e
  Awake-moves p (inr n) = go p.pusher refl
    where
      go :
          (x : Pusher Value)
          → p.pusher ≡ x
          → (p.pusher ≡ starts) ⊎ ((q : Plane Value) × Turn json uuids details wire p q)
      go starts e = inl e
      go (pushing []) e = inr (record p { pusher = waits }, rest e)
      go (pushing (x ∷ rows)) e = inr (push_one json uuids details wire x rows 0 p, push x rows 0 e)
      go waits e = inr (woken json uuids details wire p, wake e n)

  -- A send that answers has woken the pusher.
  send-cmd_notified :
      (user : User) (device_id : ℕ) (topic : Text) (body : SendCmd Value) (cmd_id : Text)
      (now epoch : ℕ) (s : AppState) (id : Text)
      → (send json details user device_id topic body cmd_id now epoch s).0 ≡ ok id
      → (send json details user device_id topic body cmd_id now epoch s).1.cmd_notified ≡ true
  unfolding send
  send-cmd_notified user device_id topic body cmd_id now epoch s =
      let ct : Text = unwrap_or body.content_type content_type_json in
      let ends : ℕ = saturating_add now (ttl_of body.expires_in_ms) in
      continue-Answers (lift (check_device json user device_id) s) _ (λ _ s.
        continue-Answers (on_db (Devices.get_in_org user.org_id device_id) s) _ (λ _ s.
          continue-Answers (require (not (is_empty topic)) (bad_request topic_empty) s) _ (λ _ s.
            continue-Answers
              (on_db (enqueue json cmd_id device_id topic ct body.payload now ends) s) _
              (λ _ s b h. refl))))

  -- After a send that answered, whatever requests arrive and whatever steps the pusher takes before
  -- it looks for rows again: it takes at most two more than the rows that it has in hand, and until
  -- it is about to look for rows, it can take a step.
  pub send_wakes :
      (user : User) (device_id : ℕ) (topic : Text) (body : SendCmd Value) (cmd_id : Text)
      (now epoch : ℕ) (p : Plane Value) {id : Text} {q : Plane Value} {n : ℕ}
      → (send json details user device_id topic body cmd_id now epoch p.app).0 ≡ ok id
      → Quiet
          (record p {
            app = (send json details user device_id topic body cmd_id now epoch p.app).1;
          })
          q
          n
      → (n ≤ lag p.pusher)
        × ((q.pusher ≡ starts) ⊎ ((r : Plane Value) × Turn json uuids details wire q r))
  send_wakes user device_id topic body cmd_id now epoch p {q = q} answered quiet =
      let (a, e) =
        Quiet-Awake
          (inr (send-cmd_notified user device_id topic body cmd_id now epoch p.app _ answered))
          quiet in
      (omega (arith, e), Awake-moves q a)
