-- ===== src/Core/Bridge.antt =====
-- run_bridge of hackline/crates/hackline-core/src/bridge.rs: the two loops that copy bytes between a
-- socket and the channels of a stream.
pub mod Handshake
pub mod Bytes
use codeless_workspace.Base.{
  ℕ, zero, suc, ◌+◌, ◌-◌, ◌*◌, ◌/◌, ◌%◌, ◌^◌, ◌≤◌, ◌<◌, min, max, String, ◌≡◌, refl, sym, ap, ◌∙◌,
  ◌≢◌, ◌↔◌, ◌⊎◌, inl, inr, Bool, true, false, not, ◌&&◌, ◌||◌, Option, none, some, List, [], ◌∷◌,
  ◌++◌, map, reverse, arith, ltb, leb, ◌==◌, if◌then◌else◌, Bool-cases, Option-cases, Text, codes,
  ◌=t◌, =t_iff, =t_refl, =t_sound, All, length, true-ne-false, is_some, is_none, unwrap_or, ◌>>=?◌,
}

-- What a read of the socket gives, with the bytes that it read: none at the end.
pub data ReadResult : Type 0 where
  read : Text → ReadResult
  failed : ReadResult

pub record BridgeBytes : Type 0 where
  pub up : ℕ
  pub down : ℕ

abbrev pub close_sentinel : Text
close_sentinel = []

-- The put of the sentinel, which may fail like any other.
unfoldable pub closing : Bool → List Text
closing true = close_sentinel ∷ []
closing false = []

-- From the socket to the channel: each read comes with whether the put after it went out. What is
-- published, and the count of the bytes read.
unfoldable pub pump_up : List (ReadResult × Bool) → List Text × ℕ
unfolding closing
pump_up [] = ([], 0)
pump_up ((read [], sent) ∷ reads) = (closing sent, 0)
pump_up ((failed, sent) ∷ reads) = (closing sent, 0)
pump_up ((read (b ∷ bytes), sent) ∷ reads) =
    let (published, up) = pump_up reads in
    if sent then ((b ∷ bytes) ∷ published, length (b ∷ bytes) + up) else ([], length (b ∷ bytes))

-- From the channel to the socket: each sample comes with whether its write succeeded. What is
-- written in full, and the count of the bytes received.
unfoldable pub pump_down : List (Text × Bool) → List Text × ℕ
pump_down [] = ([], 0)
pump_down (([], written) ∷ samples) = ([], 0)
pump_down ((b ∷ bytes, written) ∷ samples) =
    let (all, down) = pump_down samples in
    if written then ((b ∷ bytes) ∷ all, length (b ∷ bytes) + down) else ([], length (b ∷ bytes))

-- What the socket and the session do during a bridge.
pub record Ends : Type 0 where
  pub publisher_declared : Bool
  pub subscriber_declared : Bool
  pub reads : List (ReadResult × Bool)
  pub samples : List (Text × Bool)

pub data BridgeError : Type 0 where
  zenoh io proto : BridgeError
  rejected : Text → BridgeError
  ack_timeout : BridgeError

pub data BridgeResult (A : Type 0) : Type 0 where
  done : A → BridgeResult A
  stopped : BridgeError → BridgeResult A

unfoldable pub run_bridge : Ends → BridgeResult BridgeBytes
unfolding pump_up pump_down
run_bridge ends =
    if ends.publisher_declared && ends.subscriber_declared
    then done (record { up = (pump_up ends.reads).1; down = (pump_down ends.samples).1 })
    else stopped zenoh
