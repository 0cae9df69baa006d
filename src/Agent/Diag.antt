-- ===== src/Agent/Diag.antt =====
-- hackline/crates/hackline-agent/src/diag/state.rs, and what connect.rs puts there for a query.
pub mod Recent
use codeless_workspace.Base.{
  ℕ, zero, suc, ◌+◌, ◌-◌, ◌*◌, ◌/◌, ◌%◌, ◌^◌, ◌≤◌, ◌<◌, min, max, String, ◌≡◌, refl, sym, ap, ◌∙◌,
  ◌≢◌, ◌↔◌, ◌⊎◌, inl, inr, Bool, true, false, not, ◌&&◌, ◌||◌, Option, none, some, List, [], ◌∷◌,
  ◌++◌, map, reverse, arith, ltb, leb, ◌==◌, if◌then◌else◌, Bool-cases, Option-cases, Text, codes,
  ◌=t◌, =t_iff, =t_refl, =t_sound, All, length, true-ne-false, is_some, is_none, unwrap_or, ◌>>=?◌,
}
use codeless_workspace.Core.Bridge.{BridgeResult, BridgeBytes, done, stopped}
use codeless_workspace.Core.Bridge.Handshake.{accept_bridge, Dial}
use codeless_workspace.Proto.Connect.{ConnectWire}
use codeless_workspace.Proto.Uuid.{Uuids}
use codeless_workspace.Proto.Zid.{Zid}

abbrev pub connection_ring_cap : ℕ
connection_ring_cap = 64

pub record ConnectionEvent : Type 0 where
  pub at_unix : ℕ
  pub port : ℕ
  pub request_id : Text
  pub peer : Option Text
  pub outcome : Text

-- The connections of a DiagState, which nothing else in it changes: oldest first.
pub record DiagState : Type 0 where
  pub connections : List ConnectionEvent

-- DiagState::new
abbrev pub new_state : DiagState
new_state = record { connections = [] }

-- `g.remove(0)`, of a ring that is full
unfoldable pub remove_first : List ConnectionEvent → List ConnectionEvent
remove_first [] = []
remove_first (x ∷ xs) = xs

unfoldable pub push_connection : ConnectionEvent → DiagState → DiagState
unfolding remove_first
push_connection ev g = record g {
  connections =
      (if leb connection_ring_cap (length g.connections)
        then remove_first g.connections
        else g.connections)
      ++ ev ∷ [];
}

unfoldable pub recent_connections : DiagState → List ConnectionEvent
recent_connections g = reverse g.connections

module _ (uuids : Uuids) (wire : ConnectWire uuids.Uuid) where
  open uuids use {Uuid, to_string}

  -- The request id, the peer and the outcome of an accepted or failed bridge.
  unfoldable pub attributed : ℕ → ℕ → Text → BridgeResult (Uuid × Option Text) → ConnectionEvent
  attributed at port selector (done (id, peer)) = record {
    at_unix = at;
    port = port;
    request_id = to_string id;
    peer = peer;
    outcome = codes "ok";
  }
  attributed at port selector (stopped e) = record {
    at_unix = at;
    port = port;
    request_id = selector;
    peer = none;
    outcome = codes "error";
  }

  -- A query on the port's queryable.
  pub record Query : Type 0 where
    pub selector : Text
    pub payload : Option Text
    pub dial : Dial
    pub reply_sent : Bool
    pub bridge : Text → Text → BridgeResult BridgeBytes
    pub ended : ℕ

  -- One query of serve_connect: its replies, and the state with its event.
  unfoldable pub serve_query : Text → Zid → ℕ → Query → DiagState → List (Text × Text) × DiagState
  unfolding attributed push_connection accept_bridge
  serve_query org zid port q g =
      let (replies, result) =
        accept_bridge uuids wire q.bridge org zid port q.payload q.dial q.reply_sent in
      (replies, push_connection (attributed q.ended port q.selector result) g)
