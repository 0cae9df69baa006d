-- ===== src/Gateway/Metrics.antt =====
-- hackline/crates/hackline-gateway/src/metrics.rs: the counters.
pub mod Render
pub mod Events
use codeless_workspace.Base.{
  ℕ, zero, suc, ◌+◌, ◌-◌, ◌*◌, ◌/◌, ◌%◌, ◌^◌, ◌≤◌, ◌<◌, min, max, String, ◌≡◌, refl, sym, ap, ◌∙◌,
  ◌≢◌, ◌↔◌, ◌⊎◌, inl, inr, Bool, true, false, not, ◌&&◌, ◌||◌, Option, none, some, List, [], ◌∷◌,
  ◌++◌, map, reverse, arith, ltb, leb, ◌==◌, if◌then◌else◌, Bool-cases, Option-cases, Text, codes,
  ◌=t◌, =t_iff, =t_refl, =t_sound, All, length, true-ne-false, is_some, is_none, unwrap_or, ◌>>=?◌,
  ℤ, pos,
}

pub data Outcome : Type 0 where
  done_ok done_error : Outcome

-- as_str
abbrev pub outcome_str : Outcome → Text
outcome_str done_ok = codes "ok"
outcome_str done_error = codes "error"

-- The order of the keys: bytes, the shorter text first.
unfoldable pub ltb_t : Text → Text → Bool
ltb_t s [] = false
ltb_t [] (y ∷ t) = true
ltb_t (x ∷ s) (y ∷ t) = ltb x y || (x == y && ltb_t s t)

unfoldable pub eqb_pair : Text × Text → Text × Text → Bool
unfolding ◌=t◌
eqb_pair (a, b) (c, d) = a =t c && b =t d

unfoldable pub ltb_pair : Text × Text → Text × Text → Bool
unfolding ltb_t ◌=t◌
ltb_pair (a, b) (c, d) = ltb_t a c || (a =t c && ltb_t b d)

-- A `BTreeMap` as its entries in the order of the keys.
module _ {K : Type 0} (eqb ltb_key : K → K → Bool) where
  -- `*map.entry(key).or_insert(0)`, changed by `f`
  unfoldable pub entry : K → (ℕ → ℕ) → List (K × ℕ) → List (K × ℕ)
  entry key f [] = (key, f 0) ∷ []
  entry key f ((k, n) ∷ rest) =
      let later = entry key f rest in
      if eqb key k
      then (k, f n) ∷ rest
      else if ltb_key key k
      then (key, f 0) ∷ (k, n) ∷ rest
      else (k, n) ∷ later

unfoldable pub entry_t : Text → (ℕ → ℕ) → List (Text × ℕ) → List (Text × ℕ)
unfolding entry ltb_t ◌=t◌
entry_t = entry ◌=t◌ ltb_t

unfoldable pub entry_pair :
    Text × Text → (ℕ → ℕ) → List ((Text × Text) × ℕ) → List ((Text × Text) × ℕ)
unfolding entry eqb_pair ltb_pair
entry_pair = entry eqb_pair ltb_pair

pub record Metrics : Type 0 where
  pub tunnel_sessions_total : List ((Text × Text) × ℕ)
  pub tunnel_active : List (Text × ℕ)
  pub tunnel_bytes_total : List (Text × ℕ)
  pub cmd_total : List (Text × ℕ)
  pub events_received_total : List (Text × ℕ)
  pub logs_received_total : List (Text × ℕ)
  pub api_calls_total : List ((Text × Text) × ℕ)
  pub event_topic_allow : Option (List Text)
  pub devices_online : ℤ
  pub audit_rows : ℤ

-- Metrics::new
abbrev pub fresh_metrics : Metrics
fresh_metrics = record {
  tunnel_sessions_total = [];
  tunnel_active = [];
  tunnel_bytes_total = [];
  cmd_total = [];
  events_received_total = [];
  logs_received_total = [];
  api_calls_total = [];
  event_topic_allow = none;
  devices_online = pos 0;
  audit_rows = pos 0;
}

unfoldable pub set_devices_online : ℤ → Metrics → Metrics
set_devices_online n m = record m { devices_online = n }

unfoldable pub set_audit_rows : ℤ → Metrics → Metrics
set_audit_rows n m = record m { audit_rows = n }

unfoldable pub set_event_topic_allowlist : Option (List Text) → Metrics → Metrics
set_event_topic_allowlist topics m = record m { event_topic_allow = topics }

unfoldable pub inc_tunnel_session : Text → Outcome → Metrics → Metrics
unfolding entry_pair
inc_tunnel_session kind outcome m = record m {
  tunnel_sessions_total = entry_pair (kind, outcome_str outcome) suc m.tunnel_sessions_total;
}

unfoldable pub inc_tunnel_active : Text → Metrics → Metrics
unfolding entry_t
inc_tunnel_active kind m = record m { tunnel_active = entry_t kind suc m.tunnel_active }

-- A gauge above zero goes down by one; the source's `i64` is never below zero.
unfoldable pub dec_tunnel_active : Text → Metrics → Metrics
unfolding entry_t
dec_tunnel_active kind m = record m {
  tunnel_active = entry_t kind (λ n. if ltb 0 n then n - 1 else n) m.tunnel_active;
}

unfoldable pub add_tunnel_bytes : ℕ → ℕ → Metrics → Metrics
unfolding entry_t
add_tunnel_bytes up down m = record m {
  tunnel_bytes_total =
      entry_t (codes "down") (λ n. n + down)
        (entry_t (codes "up") (λ n. n + up) m.tunnel_bytes_total);
}

unfoldable pub inc_cmd : Text → Metrics → Metrics
unfolding entry_t
inc_cmd outcome m = record m { cmd_total = entry_t outcome suc m.cmd_total }

unfoldable pub any_topic : Text → List Text → Bool
unfolding ◌=t◌
any_topic topic [] = false
any_topic topic (t ∷ allow) = t =t topic || any_topic topic allow

-- The bucket of a topic.
unfoldable pub bucket : Option (List Text) → Text → Text
unfolding any_topic
bucket none topic = topic
bucket (some allow) topic = if not (any_topic topic allow) then codes "_other" else topic

unfoldable pub inc_event : Text → Metrics → Metrics
unfolding entry_t bucket
inc_event topic m = record m {
  events_received_total = entry_t (bucket m.event_topic_allow topic) suc m.events_received_total;
}

unfoldable pub inc_log : Text → Metrics → Metrics
unfolding entry_t
inc_log level m = record m { logs_received_total = entry_t level suc m.logs_received_total }

unfoldable pub inc_api_call : Text → Outcome → Metrics → Metrics
unfolding entry_pair
inc_api_call topic outcome m = record m {
  api_calls_total = entry_pair (topic, outcome_str outcome) suc m.api_calls_total;
}
