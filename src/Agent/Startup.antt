-- ===== src/Agent/Startup.antt =====
-- hackline/crates/hackline-agent/src/config.rs, diag/mod.rs and the start of main.rs and connect.rs.
pub mod Exposed
use codeless_workspace.Base.{
  ℕ, zero, suc, ◌+◌, ◌-◌, ◌*◌, ◌/◌, ◌%◌, ◌^◌, ◌≤◌, ◌<◌, min, max, String, ◌≡◌, refl, sym, ap, ◌∙◌,
  ◌≢◌, ◌↔◌, ◌⊎◌, inl, inr, Bool, true, false, not, ◌&&◌, ◌||◌, Option, none, some, List, [], ◌∷◌,
  ◌++◌, map, reverse, arith, ltb, leb, ◌==◌, if◌then◌else◌, Bool-cases, Option-cases, Text, codes,
  ◌=t◌, =t_iff, =t_refl, =t_sound, All, length, true-ne-false, is_some, is_none, unwrap_or, ◌>>=?◌,
}
use codeless_workspace.Proto.Keyexpr.{connect, info, health}
use codeless_workspace.Proto.Zid.{Zid, new, to_option}

pub record AgentConfig : Type 0 where
  pub zid : Text
  pub org : Text
  pub allowed_ports : List ℕ
  pub label : Option Text
  pub mode : Text
  pub listen : List Text
  pub endpoints : List Text
  pub level : Text
  pub format : Text
  pub diag_enabled : Bool
  pub diag_bind : Text

-- The fields that the file leaves out.
abbrev pub default_org : Text
default_org = codes "default"

abbrev pub default_mode : Text
default_mode = codes "peer"

abbrev pub default_log_level : Text
default_log_level = codes "info"

abbrev pub default_log_format : Text
default_log_format = codes "pretty"

abbrev pub default_diag_bind : Text
default_diag_bind = codes "127.0.0.1:9999"

pub data AgentError : Type 0 where
  config bridge zenoh io : AgentError
  -- `Zid::new` fails in main
  bad_zid : AgentError

pub data AgentResult (A : Type 0) : Type 0 where
  success : A → AgentResult A
  failure : AgentError → AgentResult A

unfoldable pub is_nil : List ℕ → Bool
is_nil [] = true
is_nil (p ∷ ports) = false

-- AgentConfig::load, from what reading and decoding the file give
unfoldable pub load : Option AgentConfig → AgentResult AgentConfig
unfolding is_nil
load none = failure config
load (some cfg) = if is_nil cfg.allowed_ports then failure config else success cfg

-- `SocketAddr` of the standard library, as it is read from text.
pub record Addresses : Type 1 where
  pub SocketAddr : Type 0
  pub parse : Text → Option SocketAddr
  pub is_loopback : SocketAddr → Bool

-- What main does that others see. A queryable has its key.
pub data Action (A : Type 0) : Type 0 where
  opens_session : Action A
  declares_token : Text → Action A
  serves_diag : A → Action A
  serves_info : Text → Action A
  serves_port : Text → ℕ → Action A

-- Whether the configuration of Zenoh is accepted, the session opens, the token is declared, and the
-- queryable of a port is.
pub record Session : Type 0 where
  pub configured : Bool
  pub opened : Bool
  pub token_declared : Bool
  pub declared : ℕ → Bool

module _ (addresses : Addresses) where
  open addresses use {SocketAddr, parse, is_loopback}

  unfoldable pub loopback : Option SocketAddr → AgentResult SocketAddr
  loopback none = failure config
  loopback (some addr) = if not (is_loopback addr) then failure config else success addr

  unfoldable pub parse_bind : Text → AgentResult SocketAddr
  unfolding loopback
  parse_bind s = loopback (parse s)

  -- The queryables of serve_connect.
  unfoldable pub serve_connect :
      Text → Zid → (ℕ → Bool) → List ℕ → List (Action SocketAddr) × AgentResult (Unit {0})
  serve_connect org zid declared [] = ([], success tt)
  serve_connect org zid declared (port ∷ ports) =
      let (actions, result) = serve_connect org zid declared ports in
      if declared port
      then (serves_port (connect org zid port) port ∷ actions, result)
      else ([], failure zenoh)

  -- From the diagnostics on.
  unfoldable pub serve :
      AgentConfig
      → Zid
      → Session
      → AgentResult SocketAddr
      → List (Action SocketAddr) × AgentResult (Unit {0})
  unfolding serve_connect
  serve cfg zid session bind =
      let (actions, result) = serve_connect cfg.org zid session.declared cfg.allowed_ports in
      if cfg.diag_enabled
      then elim bind as (λ _. List (Action SocketAddr) × AgentResult (Unit {0})) [
        | success addr ↦ (serves_diag addr ∷ serves_info (info cfg.org zid) ∷ actions, result)
        | failure e ↦ ([], failure e)
      ]
      else (serves_info (info cfg.org zid) ∷ actions, result)

  unfoldable pub after_session :
      AgentConfig → Zid → Session → List (Action SocketAddr) × AgentResult (Unit {0})
  unfolding serve parse_bind
  after_session cfg zid session =
      let (actions, result) = serve cfg zid session (parse_bind cfg.diag_bind) in
      if session.token_declared
      then (opens_session ∷ declares_token (health cfg.org zid) ∷ actions, result)
      else (opens_session ∷ [], failure zenoh)

  unfoldable pub with_zid :
      AgentConfig → Option Zid → Session → List (Action SocketAddr) × AgentResult (Unit {0})
  unfolding after_session
  with_zid cfg none session = ([], failure bad_zid)
  with_zid cfg (some zid) session =
      if not session.configured
      then ([], failure config)
      else if not session.opened
      then ([], failure zenoh)
      else after_session cfg zid session

  unfoldable pub start :
      AgentResult AgentConfig → Session → List (Action SocketAddr) × AgentResult (Unit {0})
  unfolding with_zid new
  start (failure e) session = ([], failure e)
  start (success cfg) session = with_zid cfg (to_option (new cfg.zid)) session

  -- main
  unfoldable pub main :
      Option AgentConfig → Session → List (Action SocketAddr) × AgentResult (Unit {0})
  unfolding load start
  main file session = start (load file) session
