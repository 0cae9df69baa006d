-- ===== src/Agent/Startup/Exposed.antt =====
-- What a started agent exposes.
use codeless_workspace.Agent.Startup.{
  Addresses, AgentConfig, serve_connect, Session, Action, serves_diag, main, serves_port,
  serves_info, declares_token, opens_session, with_zid, serve, load, loopback, start, after_session,
  parse_bind, is_nil,
}
use codeless_workspace.Base.{
  ℕ, ◌≡◌, inl, inr, Bool, true, false, not, ◌||◌, Option, none, some, List, [], ◌∷◌, arith, ◌==◌,
  if◌then◌else◌, Bool-cases, Text, All, ==_refl, All-map,
}
use codeless_workspace.Proto.Zid.{Zid, to_option, new}

unfoldable pub any_port : ℕ → List ℕ → Bool
any_port port [] = false
any_port port (p ∷ ports) = p == port || any_port port ports

module _ (addresses : Addresses) where
  open addresses use {SocketAddr, parse, is_loopback}

  -- The diagnostics listen on the loopback, and a port that is served is one of the configured ones.
  abbrev pub IsAllowed : AgentConfig → Action SocketAddr → Type 0
  IsAllowed cfg (serves_diag addr) = is_loopback addr ≡ true
  IsAllowed cfg (serves_port ke port) = any_port port cfg.allowed_ports ≡ true
  IsAllowed cfg (serves_info ke) = Unit {0}
  IsAllowed cfg (declares_token ke) = Unit {0}
  IsAllowed cfg opens_session = Unit {0}

  if-All :
      {A : Type 0} (P : Action SocketAddr → Type 0) (b : Bool) (x y : List (Action SocketAddr) × A)
      → All P x.0
      → All P y.0
      → All P (if b then x else y).0
  if-All P true x y h k = h
  if-All P false x y h k = k

  serve_connect-All :
      (cfg : AgentConfig) (org : Text) (zid : Zid) (declared : ℕ → Bool) (ports : List ℕ)
      → All (λ p. any_port p cfg.allowed_ports ≡ true) ports
      → All (IsAllowed cfg) (serve_connect addresses org zid declared ports).0
  unfolding serve_connect
  serve_connect-All cfg org zid declared [] h = tt
  serve_connect-All cfg org zid declared (p ∷ ports) (h, hs) =
      if-All (IsAllowed cfg) (declared p) _ _ (h, serve_connect-All cfg org zid declared ports hs)
        tt

  all_any : (ports : List ℕ) → All (λ p. any_port p ports ≡ true) ports
  unfolding any_port
  all_any [] = tt
  all_any (p ∷ ports) = (
    ground (arith, ==_refl p),
    All-map (λ q. any_port q ports ≡ true) (λ q. (p == q || any_port q ports) ≡ true)
        (λ q h. ground (arith, h)) ports (all_any ports),
  )

  connects-All :
      (cfg : AgentConfig) (zid : Zid) (session : Session)
      → All
          (IsAllowed cfg)
          (serve_connect addresses cfg.org zid session.declared cfg.allowed_ports).0
  connects-All cfg zid session =
      serve_connect-All cfg cfg.org zid session.declared cfg.allowed_ports
        (all_any cfg.allowed_ports)

  parse_bind-IsAllowed :
      (cfg : AgentConfig) (zid : Zid) (session : Session) (addr : Option SocketAddr)
      → All (IsAllowed cfg) (serve addresses cfg zid session (loopback addresses addr)).0
  unfolding serve loopback
  parse_bind-IsAllowed cfg zid session none =
      if-All (IsAllowed cfg) cfg.diag_enabled _ _ tt (tt, connects-All cfg zid session)
  parse_bind-IsAllowed cfg zid session (some addr) = elim (Bool-cases (is_loopback addr)) [
    | inl local ↦ rw local (
        if-All (IsAllowed cfg) cfg.diag_enabled _ _ (local, (tt, connects-All cfg zid session))
          (tt, connects-All cfg zid session))
    | inr remote ↦
        rw remote
          (if-All (IsAllowed cfg) cfg.diag_enabled _ _ tt (tt, connects-All cfg zid session))
  ]

  with_zid-All :
      (cfg : AgentConfig) (zid : Option Zid) (session : Session)
      → All (IsAllowed cfg) (with_zid addresses cfg zid session).0
  unfolding with_zid after_session parse_bind
  with_zid-All cfg none session = tt
  with_zid-All cfg (some zid) session = if-All (IsAllowed cfg) (not session.configured) _ _ tt (
      if-All (IsAllowed cfg) (not session.opened) _ _ tt (
        if-All (IsAllowed cfg) session.token_declared _ _
          (tt, (tt, parse_bind-IsAllowed cfg zid session (parse cfg.diag_bind))) (tt, tt)))

  -- However the start goes, the diagnostics, which have no authentication, listen on a loopback
  -- address only, and the agent serves no port but those of its configuration.
  pub main-All :
      (cfg : AgentConfig) (session : Session)
      → All (IsAllowed cfg) (main addresses (some cfg) session).0
  unfolding main load start
  main-All cfg session = elim (Bool-cases (is_nil cfg.allowed_ports)) [
    | inl e ↦ rw e tt
    | inr e ↦ rw e (with_zid-All cfg (to_option (new cfg.zid)) session)
  ]
