-- ===== src/Gateway/RttCache/Fresh.antt =====
-- What the cache answers, and how large it grows.
use codeless_workspace.Base.{
  ℕ, suc, ◌-◌, ◌≤◌, ◌≡◌, refl, sym, ap, ◌∙◌, ◌≢◌, inl, inr, true, false, not, Option, none, some,
  List, [], ◌∷◌, arith, leb, if◌then◌else◌, Bool-cases, All, length, true-ne-false, find_row,
  delete_rows, ==_refl, ==_iff, Distinct, find_none_of, delete_yes, delete_no, All-map, All-delete,
  Distinct-delete,
}
use codeless_workspace.Gateway.RttCache.{
  Key, Entry, RttCache, get, put, insert, pruned, same_key, is_fresh, hit, max_entries,
}

same_key_refl : (k : Key) → same_key k k ≡ true
unfolding same_key
same_key_refl (o, d) = rw (==_refl o, ==_refl d) refl

same_key_sound : (k l : Key) → same_key k l ≡ true → k ≡ l
unfolding same_key
same_key_sound (o, d) (o', d') h =
    rw ((==_iff o o').0 (ground (arith, h)), (==_iff d d').0 (ground (arith, h))) refl

same_key-apart : (k l : Key) → k ≢ l → same_key k l ≡ false
same_key-apart k l ne = elim (Bool-cases (same_key k l)) [
  | inl e ↦ absurd (ne (same_key_sound k l e))
  | inr e ↦ e
]

abbrev pub lookup : Key → List Entry → Option Entry
lookup k m = find_row (λ (e : Entry). same_key e.key k) m

lookup-insert : (e : Entry) (m : List Entry) → lookup e.key (insert e m) ≡ some e
unfolding insert find_row
lookup-insert e [] = rw (same_key_refl e.key) refl
lookup-insert e (f ∷ m) = elim (Bool-cases (same_key f.key e.key)) [
  | inl h ↦ rw (h, same_key_refl e.key) refl
  | inr h ↦ rw (h, h) (lookup-insert e m)
]

lookup-insert_apart :
    (e : Entry) (k : Key) → e.key ≢ k → (m : List Entry) → lookup k (insert e m) ≡ lookup k m
unfolding insert find_row
lookup-insert_apart e k ne [] = rw (same_key-apart e.key k ne) refl
lookup-insert_apart e k ne (f ∷ m) = elim (Bool-cases (same_key f.key e.key)) [
  | inl h ↦
      rw (h, same_key-apart e.key k ne, same_key_sound f.key e.key h, same_key-apart e.key k ne)
        refl
  | inr h ↦ rw (h, lookup-insert_apart e k ne m) refl
]

length-insert : (e : Entry) (m : List Entry) → length (insert e m) ≤ suc (length m)
unfolding insert
length-insert e [] = omega arith
length-insert e (f ∷ m) = elim (Bool-cases (same_key f.key e.key)) [
  | inl h ↦ rw h (omega arith)
  | inr h ↦ rw h (omega (arith, length-insert e m))
]

-- A value that was put is read back for the time to live, and no longer, as what it was, a failed
-- probe included; and the map never holds more than its maximum of entries after a put.
pub get-put :
    (cache : RttCache) (now later : ℕ) (k : Key) (v : Option ℕ)
    → (get (put cache now k v) later k ≡ (if leb (later - now) cache.ttl then some v else none))
      × (length (put cache now k v).inner ≤ max_entries)
unfolding get put is_fresh pruned
get-put cache now later k v = (
  rw (lookup-insert (record { key = k; at = now; rtt_ms = v }) (pruned cache.ttl now cache.inner))
      refl,
  bounded (delete_rows (λ e. not (is_fresh cache.ttl now e)) cache.inner),
)
  where
    bounded :
        (kept : List Entry)
        → length (
            insert
              (record { key = k; at = now; rtt_ms = v })
              (if leb max_entries (length kept) then [] else kept))
          ≤ max_entries
    bounded kept = elim (Bool-cases (leb max_entries (length kept))) [
      | inl h ↦ rw h (omega (arith, length-insert (record { key = k; at = now; rtt_ms = v }) []))
      | inr h ↦
          rw h (ground (arith, length-insert (record { key = k; at = now; rtt_ms = v }) kept, h))
    ]

abbrev pub entry_key : Entry → Key
entry_key e = e.key

still_stale :
    (ttl now later : ℕ)
    → now ≤ later
    → (e : Entry) → is_fresh ttl now e ≡ false
    → is_fresh ttl later e ≡ false
unfolding is_fresh
still_stale ttl now later le e h = ground (arith, le, h)

no_other :
    (k : Key) (e : Entry) (m : List Entry)
    → same_key e.key k ≡ true
    → All (λ x. e.key ≢ x.key) m
    → All (λ x. same_key x.key k ≡ false) m
no_other k e m h d =
    All-map (λ x. e.key ≢ x.key) (λ x. same_key x.key k ≡ false)
      (λ x ne. same_key-apart x.key k (λ q. ne (same_key_sound e.key k h ∙ sym q))) m d

hit-retain :
    (ttl now later : ℕ)
    → now ≤ later
    → (k : Key) (m : List Entry) → Distinct entry_key m
    → hit ttl later (lookup k (delete_rows (λ e. not (is_fresh ttl now e)) m))
      ≡ hit ttl later (lookup k m)
unfolding hit find_row delete_rows
hit-retain ttl now later le k [] d = refl
hit-retain ttl now later le k (e ∷ m) d = elim (Bool-cases (is_fresh ttl now e)) [
  | inl f ↦ elim (Bool-cases (same_key e.key k)) [
    | inl h ↦ rw (delete_no (λ x. not (is_fresh ttl now x)) e m (rw f refl), h) refl
    | inr h ↦
        rw (delete_no (λ x. not (is_fresh ttl now x)) e m (rw f refl), h)
          (hit-retain ttl now later le k m d.1)
  ]
  | inr f ↦ elim (Bool-cases (same_key e.key k)) [
    | inl h ↦
        rw
          (
            delete_yes (λ x. not (is_fresh ttl now x)) e m (rw f refl),
            h,
            still_stale ttl now later le e f,
            find_none_of (λ (x : Entry). same_key x.key k)
                (delete_rows (λ x. not (is_fresh ttl now x)) m)
                (All-delete (λ x. same_key x.key k ≡ false) (λ x. not (is_fresh ttl now x)) m
                  (no_other k e m h d.0)),
          )
          refl
    | inr h ↦
        rw (delete_yes (λ x. not (is_fresh ttl now x)) e m (rw f refl), h)
          (hit-retain ttl now later le k m d.1)
  ]
]

All-insert :
    (l : Key) (e : Entry)
    → l ≢ e.key
    → (m : List Entry) → All (λ x. l ≢ x.key) m
    → All (λ x. l ≢ x.key) (insert e m)
unfolding insert
All-insert l e ne [] h = (ne, tt)
All-insert l e ne (f ∷ m) h = elim (Bool-cases (same_key f.key e.key)) [
  | inl q ↦ rw q (ne, h.1)
  | inr q ↦ rw q (h.0, All-insert l e ne m h.1)
]

Distinct-insert :
    (e : Entry) (m : List Entry) → Distinct entry_key m → Distinct entry_key (insert e m)
unfolding insert
Distinct-insert e [] d = (tt, tt)
Distinct-insert e (f ∷ m) d = elim (Bool-cases (same_key f.key e.key)) [
  | inl q ↦ rw q (
    All-map (λ x. f.key ≢ x.key) (λ x. e.key ≢ x.key)
        (λ x ne r. ne (same_key_sound f.key e.key q ∙ r)) m d.0,
    d.1,
  )
  | inr q ↦ rw q (
    All-insert f.key e (λ r. true-ne-false (rw r (same_key_refl e.key)) q) m d.0,
    Distinct-insert e m d.1,
  )
]

Distinct-put :
    (cache : RttCache) (now : ℕ) (k : Key) (v : Option ℕ)
    → Distinct entry_key cache.inner
    → Distinct entry_key (put cache now k v).inner
unfolding put pruned
Distinct-put cache now k v d =
    elim (Bool-cases
      (leb max_entries (length (delete_rows (λ e. not (is_fresh cache.ttl now e)) cache.inner)))) [
        | inl h ↦ rw h (Distinct-insert (record { key = k; at = now; rtt_ms = v }) [] tt)
        | inr h ↦ rw h (
            Distinct-insert (record { key = k; at = now; rtt_ms = v })
              (delete_rows (λ e. not (is_fresh cache.ttl now e)) cache.inner)
              (Distinct-delete entry_key (λ e. not (is_fresh cache.ttl now e)) cache.inner d))
      ]

unchanged :
    (cache : RttCache) (now later : ℕ) (k l : Key) (v : Option ℕ)
    → k ≢ l
    → now ≤ later
    → Distinct entry_key cache.inner
    → get (put cache now k v) later l ≡ (
        if leb max_entries (length (delete_rows (λ e. not (is_fresh cache.ttl now e)) cache.inner))
        then none
        else get cache later l)
unfolding get put pruned hit
unchanged cache now later k l v ne le d =
    ap (hit cache.ttl later) (
      lookup-insert_apart (record { key = k; at = now; rtt_ms = v }) l ne
        (pruned cache.ttl now cache.inner))
    ∙ elim (Bool-cases (
        leb max_entries (length (delete_rows (λ e. not (is_fresh cache.ttl now e)) cache.inner)))) [
          | inl h ↦ rw h (unfold find_row in refl)
          | inr h ↦ rw h (hit-retain cache.ttl now later le l cache.inner d)
        ]

-- Where a key stands once in the map, a put for one device of one organisation does not change what
-- is read for any other key from then on, unless the map was full of fresh entries: then every other
-- key reads as a miss. A key still stands once afterwards.
pub get-put_apart :
    (cache : RttCache) (now later : ℕ) (k l : Key) (v : Option ℕ)
    → k ≢ l
    → now ≤ later
    → Distinct entry_key cache.inner
    → (get (put cache now k v) later l ≡ (
        if leb max_entries (length (delete_rows (λ e. not (is_fresh cache.ttl now e)) cache.inner))
        then none
        else get cache later l))
      × Distinct entry_key (put cache now k v).inner
get-put_apart cache now later k l v ne le d =
    (unchanged cache now later k l v ne le d, Distinct-put cache now k v d)
