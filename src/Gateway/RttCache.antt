-- ===== src/Gateway/RttCache.antt =====
-- hackline/crates/hackline-gateway/src/rtt_cache.rs. Instants are numbers of one clock; the map is
-- an association list in which a key stands once.
pub mod Fresh
use codeless_workspace.Base.{
  ℕ, zero, suc, ◌+◌, ◌-◌, ◌*◌, ◌/◌, ◌%◌, ◌^◌, ◌≤◌, ◌<◌, min, max, String, ◌≡◌, refl, sym, ap, ◌∙◌,
  ◌≢◌, ◌↔◌, ◌⊎◌, inl, inr, Bool, true, false, not, ◌&&◌, ◌||◌, Option, none, some, List, [], ◌∷◌,
  ◌++◌, map, reverse, arith, ltb, leb, ◌==◌, if◌then◌else◌, Bool-cases, Option-cases, Text, codes,
  ◌=t◌, =t_iff, =t_refl, =t_sound, All, length, true-ne-false, is_some, is_none, unwrap_or, ◌>>=?◌,
  find_row, delete_rows,
}

abbrev pub max_entries : ℕ
max_entries = 4096

-- (org_id, device_id)
abbrev pub Key : Type 0
Key = ℕ × ℕ

pub record Entry : Type 0 where
  pub key : Key
  pub at : ℕ
  pub rtt_ms : Option ℕ

pub record RttCache : Type 0 where
  pub inner : List Entry
  pub ttl : ℕ

unfoldable pub new : ℕ → RttCache
new ttl = record { inner = []; ttl = ttl }

unfoldable pub same_key : Key → Key → Bool
same_key (o, d) (o', d') = o == o' && d == d'

-- `e.at.elapsed() <= ttl`; elapsed is zero for a later instant.
unfoldable pub is_fresh : ℕ → ℕ → Entry → Bool
is_fresh ttl now e = leb (now - e.at) ttl

hit : ℕ → ℕ → Option Entry → Option (Option ℕ)
unfolding is_fresh
hit ttl now none = none
hit ttl now (some e) = if is_fresh ttl now e then some e.rtt_ms else none

unfoldable pub get : RttCache → ℕ → Key → Option (Option ℕ)
unfolding find_row same_key hit
get cache now key = hit cache.ttl now (find_row (λ (e : Entry). same_key e.key key) cache.inner)

unfoldable pub insert : Entry → List Entry → List Entry
unfolding same_key
insert e [] = e ∷ []
insert e (f ∷ m) = let rest = insert e m in if same_key f.key e.key then e ∷ m else f ∷ rest

-- `map.retain(…)`, then `map.clear()` where the map is full
unfoldable pub pruned : ℕ → ℕ → List Entry → List Entry
unfolding delete_rows is_fresh
pruned ttl now m =
    let kept = delete_rows (λ e. not (is_fresh ttl now e)) m in
    if leb max_entries (length kept) then [] else kept

unfoldable pub put : RttCache → ℕ → Key → Option ℕ → RttCache
unfolding insert pruned
put cache now key rtt_ms = record cache {
  inner =
      insert (record { key = key; at = now; rtt_ms = rtt_ms }) (pruned cache.ttl now cache.inner);
}

-- cached_rtt_ms of api/devices/health_probe.rs, with the time before the probe, what the probe
-- answers, and the time after it
unfoldable pub cached_rtt_ms : RttCache → Key → ℕ → Option ℕ → ℕ → Option ℕ × RttCache
unfolding get put
cached_rtt_ms cache key now probed later = elim (get cache now key) [
  | some cached ↦ (cached, cache)
  | none ↦ (probed, put cache later key probed)
]

abbrev pub online_stale_secs : ℕ
online_stale_secs = 60

-- online_from_last_seen of api/devices/health_probe.rs: a time in the future counts as seen
unfoldable pub online_from_last_seen : Option ℕ → ℕ → Bool
online_from_last_seen none now = false
online_from_last_seen (some seen) now = leb (now - seen) online_stale_secs
