-- ===== src/Gateway/Db/Messages/Visible.antt =====
-- What the listings of hackline/crates/hackline-gateway/src/db/events.rs and logs.rs may show.
use codeless_workspace.Base.{
  ℕ, suc, ◌≤◌, ◌≡◌, refl, ap, Bool, true, false, ◌&&◌, Option, none, List, [], ◌∷◌, map, reverse,
  arith, ◌==◌, Text, ◌=t◌, All, length, is_some, unwrap_or, All-reverse, All-take, All-map,
  select_sound, length-take, ℤ, leb_ℤ, select, find_row,
}
use codeless_workspace.Gateway.Db.CmdOutbox.{clamp_limit, before_cursor}
use codeless_workspace.Gateway.Db.CmdOutbox.Pages.{clamp_bounds}
use codeless_workspace.Gateway.Db.Messages.{
  holds, visible_to, wanted, page, list_events, list_logs, row_to_event, row_to_log, EventRow,
  LogRow,
}
use codeless_workspace.Gateway.Error.{or_empty}
use codeless_workspace.Gateway.Json.{Json}
use codeless_workspace.Gateway.Schema.{Database, MessageRow, Device}

and_both : (a b : Bool) → (a && b) ≡ true → (a ≡ true) × (b ≡ true)
and_both true true h = (refl, refl)
and_both true false h = cc
and_both false b h = cc

-- A row of a device that is the organisation's, by the table of devices, and that was asked for.
pub record IsOwn (s : Database) (org_id : ℕ) (asked : Option ℕ) (device_id : ℕ) : Type 0 where
  pub device :
      is_some (find_row (λ (d : Device). d.id == device_id && d.org_id == org_id) s.devices) ≡ true
  pub chosen : holds (λ (d : ℕ). device_id == d) asked ≡ true

module _ {A B : Type 0} (P : A → Type 0) (Q : B → Type 0) (f : A → B)
    (g : (a : A) → P a → Q (f a)) where
  All-mapped : (xs : List A) → All P xs → All Q (map f xs)
  All-mapped [] h = tt
  All-mapped (x ∷ xs) (h, hs) = (g x h, All-mapped xs hs)

length-map : {A B : Type 0} → (f : A → B) (xs : List A) → length (map f xs) ≡ length xs
length-map f [] = refl
length-map f (x ∷ xs) = ap suc (length-map f xs)

module _ (glob : Text → Text → Bool) where
  -- A page has at most 1000 rows, each of a device of the organisation.
  page-IsOwn :
      (s : Database) (org_id : ℕ) (device_id : Option ℕ) (topic level : Option Text)
      (since cursor : Option ℤ) (limit : ℤ) (rows : List MessageRow)
      → (length (page glob s org_id device_id topic level since cursor limit rows) ≤ 1000)
        × All
            (λ r. IsOwn s org_id device_id r.device_id)
            (page glob s org_id device_id topic level since cursor limit rows)
  unfolding page wanted visible_to
  page-IsOwn s org_id device_id topic level since cursor limit rows = (
    rw
        (length-take (clamp_limit limit)
          (reverse (select (wanted glob s org_id device_id topic level since cursor) rows)))
        (omega (arith, (clamp_bounds limit).1)),
    All-take P (clamp_limit limit)
        (reverse (select (wanted glob s org_id device_id topic level since cursor) rows))
        (All-reverse P (select (wanted glob s org_id device_id topic level since cursor) rows) (
          All-map (λ r. wanted glob s org_id device_id topic level since cursor r ≡ true) P
            (λ r h. shown r h)
            (select (wanted glob s org_id device_id topic level since cursor) rows)
            (select_sound (wanted glob s org_id device_id topic level since cursor) rows))),
  )
    where
      P : MessageRow → Type 0
      P r = IsOwn s org_id device_id r.device_id

      shown :
          (r : MessageRow) → wanted glob s org_id device_id topic level since cursor r ≡ true → P r
      shown r h =
          let a =
            and_both (visible_to s org_id r)
              (holds (λ (d : ℕ). r.device_id == d) device_id
                && (holds (λ (t : Text). glob t r.topic) topic
                    && (holds (λ (l : Text). unwrap_or r.level [] =t l) level
                        && (holds (λ (t : ℤ). leb_ℤ t r.ts) since && before_cursor cursor r.id))))
              h in
          record {
            device = a.0;
            chosen =
                (and_both (holds (λ (d : ℕ). r.device_id == d) device_id)
                  (holds (λ (t : Text). glob t r.topic) topic
                    && (holds (λ (l : Text). unwrap_or r.level [] =t l) level
                        && (holds (λ (t : ℤ). leb_ℤ t r.ts) since && before_cursor cursor r.id)))
                  a.1).0;
          }

  module _ (json : Json) where
    -- The lists of events and of logs have at most 1000 rows, whatever limit was asked for, and every
    -- row is one of a device that the table of devices gives to the organisation that asks, and of
    -- the device asked for, if any.
    pub list_events-IsOwn :
        (org_id : ℕ) (device_id : Option ℕ) (topic level : Option Text) (since cursor : Option ℤ)
        (limit : ℤ) (s : Database)
        → (length (or_empty (list_events glob json org_id device_id topic since cursor limit s).0)
            ≤ 1000)
          × All
              (λ (r : EventRow json.Value). IsOwn s org_id device_id r.device_id)
              (or_empty (list_events glob json org_id device_id topic since cursor limit s).0)
          × (length
                (or_empty (list_logs glob json org_id device_id topic level since cursor limit s).0)
              ≤ 1000)
          × All
              (λ (r : LogRow json.Value). IsOwn s org_id device_id r.device_id)
              (or_empty (list_logs glob json org_id device_id topic level since cursor limit s).0)
    unfolding list_events list_logs row_to_event row_to_log
    list_events-IsOwn org_id device_id topic level since cursor limit s =
        let (a, b) = page-IsOwn s org_id device_id topic none since cursor limit s.events in
        let (c, d) = page-IsOwn s org_id device_id topic level since cursor limit s.logs in
        (
          rw
              (length-map (row_to_event json)
                (page glob s org_id device_id topic none since cursor limit s.events))
              a,
          All-mapped (λ r. IsOwn s org_id device_id r.device_id)
              (λ (r : EventRow json.Value). IsOwn s org_id device_id r.device_id)
              (row_to_event json) (λ r h. h) _ b,
          rw
              (length-map (row_to_log json)
                (page glob s org_id device_id topic level since cursor limit s.logs))
              c,
          All-mapped (λ r. IsOwn s org_id device_id r.device_id)
              (λ (r : LogRow json.Value). IsOwn s org_id device_id r.device_id) (row_to_log json)
              (λ r h. h) _ d,
        )
