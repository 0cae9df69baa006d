-- ===== src/Gateway/Metrics/Events.antt =====
-- The buckets of the events that have been received.
use codeless_workspace.Base.{
  ℕ, suc, ◌+◌, ◌≡◌, refl, ◌⊎◌, inl, inr, Bool, true, some, List, [], ◌∷◌, arith, Bool-cases, Text,
  codes, ◌=t◌, All, length,
}
use codeless_workspace.Gateway.Metrics.{
  inc_event, bucket, Metrics, any_topic, entry, entry_t, ltb_t,
}

-- All the events counted.
unfoldable pub total : {K : Type 0} → List (K × ℕ) → ℕ
total [] = 0
total ((k, n) ∷ rest) = n + total rest

unfoldable pub inc_events : List Text → Metrics → Metrics
inc_events [] m = m
inc_events (topic ∷ topics) m = inc_events topics (inc_event topic m)

-- An entry of one of the topics of the allowlist, or of the rest.
abbrev pub IsBounded : List Text → Text × ℕ → Type 0
IsBounded allow (k, n) = (k ≡ codes "_other") ⊎ (any_topic k allow ≡ true)

module _ {K : Type 0} (eqb ltb_key : K → K → Bool) (P : K × ℕ → Type 0) where
  entry-All :
      (key : K) (rows : List (K × ℕ))
      → ((n : ℕ) → P (key, n))
      → ((k : K) (n : ℕ) → P (k, n) → P (k, suc n))
      → All P rows
      → All P (entry eqb ltb_key key suc rows)
  unfolding entry
  entry-All key [] new old h = (new 1, tt)
  entry-All key ((k, n) ∷ rest) new old (h, hs) = elim (Bool-cases (eqb key k)) [
    | inl e ↦ rw e (old k n h, hs)
    | inr e ↦ elim (Bool-cases (ltb_key key k)) [
      | inl before ↦ rw (e, before) (new 1, (h, hs))
      | inr after ↦ rw (e, after) (h, entry-All key rest new old hs)
    ]
  ]

module _ {K : Type 0} (eqb ltb_key : K → K → Bool) where
  total-entry :
      (key : K) (rows : List (K × ℕ)) → total (entry eqb ltb_key key suc rows) ≡ suc (total rows)
  unfolding entry total
  total-entry key [] = refl
  total-entry key ((k, n) ∷ rest) = elim (Bool-cases (eqb key k)) [
    | inl e ↦ rw e (omega arith)
    | inr e ↦ elim (Bool-cases (ltb_key key k)) [
      | inl before ↦ rw (e, before) (omega arith)
      | inr after ↦ rw (e, after) (omega (arith, total-entry key rest))
    ]
  ]

bucket-IsBounded :
    (allow : List Text) (topic : Text) (n : ℕ) → IsBounded allow (bucket (some allow) topic, n)
unfolding bucket
bucket-IsBounded allow topic n = elim (Bool-cases (any_topic topic allow)) [
  | inl e ↦ inr (rw e e)
  | inr e ↦ inl (rw e refl)
]

-- With an allowlist, whatever topics the events have, no event is lost from the counts, and every
-- bucket is that of an allowed topic or `_other`.
pub inc_events-All :
    (allow : List Text) (topics : List Text) (m : Metrics)
    → m.event_topic_allow ≡ some allow
    → All (IsBounded allow) m.events_received_total
    → All (IsBounded allow) (inc_events topics m).events_received_total
      × (total (inc_events topics m).events_received_total
          ≡ length topics + total m.events_received_total)
unfolding inc_events inc_event entry_t
inc_events-All allow [] m e h = (h, omega arith)
inc_events-All allow (topic ∷ topics) m e h =
    let (bounded, all) = inc_events-All allow topics (inc_event topic m) e (
      rw e (
        entry-All ◌=t◌ ltb_t (IsBounded allow) (bucket (some allow) topic) m.events_received_total
          (bucket-IsBounded allow topic) (λ k n x. x) h)) in
    (
      bounded,
      omega (
        arith,
        all,
        total-entry ◌=t◌ ltb_t (bucket m.event_topic_allow topic) m.events_received_total,
      ),
    )
