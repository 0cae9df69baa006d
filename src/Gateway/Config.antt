-- ===== src/Gateway/Config.antt =====
-- The TLS block of hackline/crates/hackline-gateway/src/config.rs.
pub mod Modes
use codeless_workspace.Base.{
  ℕ, zero, suc, ◌+◌, ◌-◌, ◌*◌, ◌/◌, ◌%◌, ◌^◌, ◌≤◌, ◌<◌, min, max, String, ◌≡◌, refl, sym, ap, ◌∙◌,
  ◌≢◌, ◌↔◌, ◌⊎◌, inl, inr, Bool, true, false, not, ◌&&◌, ◌||◌, Option, none, some, List, [], ◌∷◌,
  ◌++◌, map, reverse, arith, ltb, leb, ◌==◌, if◌then◌else◌, Bool-cases, Option-cases, Text, codes,
  ◌=t◌, =t_iff, =t_refl, =t_sound, All, length, true-ne-false, is_some, is_none, unwrap_or, ◌>>=?◌,
}
use codeless_workspace.Gateway.Error.{
  Result, err, config, tls_needs_email, ok, tls_needs_both, tls_no_mode, tls_ambiguous,
}

pub record TlsConfig : Type 0 where
  pub acme_domain : Option Text
  pub acme_email : Option Text
  pub acme_staging : Bool
  pub acme_cache_dir : Option Text
  pub acme_renew_before_days : ℕ
  pub acme_check_interval_secs : ℕ
  pub cert_path : Option Text
  pub key_path : Option Text
  pub self_signed : Bool

pub data TlsMode : Type 0 where
  acme manual self_signed_mode : TlsMode

abbrev pub default_renew_before_days : ℕ
default_renew_before_days = 30

abbrev pub default_renew_check_secs : ℕ
default_renew_check_secs = 12 * 60 * 60

-- The `match` on the three tests.
unfoldable pub mode_of : Bool → Bool → Bool → TlsConfig → Result TlsMode
mode_of true false false cfg =
    if is_none cfg.acme_email then err (config tls_needs_email) else ok acme
mode_of false true false cfg =
    if is_none cfg.cert_path || is_none cfg.key_path then err (config tls_needs_both) else ok manual
mode_of false false true cfg = ok self_signed_mode
mode_of false false false cfg = err (config tls_no_mode)
mode_of true true b cfg = err (config tls_ambiguous)
mode_of true false true cfg = err (config tls_ambiguous)
mode_of false true true cfg = err (config tls_ambiguous)

-- TlsConfig::mode
unfoldable pub mode : TlsConfig → Result TlsMode
unfolding mode_of
mode cfg =
    mode_of (is_some cfg.acme_domain) (is_some cfg.cert_path || is_some cfg.key_path)
      cfg.self_signed cfg
