-- ===== src/Gateway/Config/Modes.antt =====
-- Which TLS block is accepted.
use codeless_workspace.Base.{ℕ, ◌≡◌, refl, ◌↔◌, Bool, true, false, Option, none, some, Text, subst}
use codeless_workspace.Gateway.Config.{
  TlsConfig, TlsMode, acme, mode, manual, self_signed_mode, mode_of,
}
use codeless_workspace.Gateway.Error.{ok}
use codeless_workspace.Gateway.Exec.Steps.{ok_inj}

-- A block that says one thing, in full.
pub data Means (cfg : TlsConfig) : TlsMode → Type 0 where
  by_acme :
      (domain email : Text)
      → cfg.acme_domain ≡ some domain
      → cfg.acme_email ≡ some email
      → cfg.cert_path ≡ none
      → cfg.key_path ≡ none
      → cfg.self_signed ≡ false
      → Means cfg acme
  by_files :
      (cert key : Text)
      → cfg.acme_domain ≡ none
      → cfg.cert_path ≡ some cert
      → cfg.key_path ≡ some key
      → cfg.self_signed ≡ false
      → Means cfg manual
  by_self :
      cfg.acme_domain ≡ none
      → cfg.cert_path ≡ none
      → cfg.key_path ≡ none
      → cfg.self_signed ≡ true
      → Means cfg self_signed_mode

module _ (acme_staging : Bool) (acme_cache_dir : Option Text) (days secs : ℕ) where
  abbrev with_fields : Option Text → Option Text → Option Text → Option Text → Bool → TlsConfig
  with_fields domain email cert key own = record {
    acme_domain = domain;
    acme_email = email;
    acme_staging = acme_staging;
    acme_cache_dir = acme_cache_dir;
    acme_renew_before_days = days;
    acme_check_interval_secs = secs;
    cert_path = cert;
    key_path = key;
    self_signed = own;
  }

  mode-Means :
      (domain email cert key : Option Text) (own : Bool) (m : TlsMode)
      → mode (with_fields domain email cert key own) ≡ ok m
      → Means (with_fields domain email cert key own) m
  unfolding mode mode_of
  mode-Means none email none none true m h =
      subst (Means (with_fields none email none none true)) (ok_inj h) (by_self refl refl refl refl)
  mode-Means none email none none false m h = cc
  mode-Means none email (some c) (some k) false m h =
      subst (Means (with_fields none email (some c) (some k) false)) (ok_inj h)
        (by_files c k refl refl refl refl)
  mode-Means none email (some c) none false m h = cc
  mode-Means none email none (some k) false m h = cc
  mode-Means none email (some c) key true m h = cc
  mode-Means none email none (some k) true m h = cc
  mode-Means (some d) (some e) none none false m h =
      subst (Means (with_fields (some d) (some e) none none false)) (ok_inj h)
        (by_acme d e refl refl refl refl refl)
  mode-Means (some d) none none none false m h = cc
  mode-Means (some d) email none none true m h = cc
  mode-Means (some d) email (some c) key own m h = cc
  mode-Means (some d) email none (some k) own m h = cc

Means-mode : (cfg : TlsConfig) (m : TlsMode) → Means cfg m → mode cfg ≡ ok m
unfolding mode mode_of
Means-mode cfg _ (by_acme d e domain email cert key own) = rw (domain, email, cert, key, own) refl
Means-mode cfg _ (by_files c k domain cert key own) = rw (domain, cert, key, own) refl
Means-mode cfg _ (by_self domain cert key own) = rw (domain, cert, key, own) refl

-- A TLS block is accepted with a mode exactly where it configures that mode in full and no other.
pub mode_iff : (cfg : TlsConfig) (m : TlsMode) → (mode cfg ≡ ok m) ↔ Means cfg m
mode_iff cfg m = (
  mode-Means cfg.acme_staging cfg.acme_cache_dir cfg.acme_renew_before_days
      cfg.acme_check_interval_secs cfg.acme_domain cfg.acme_email cfg.cert_path cfg.key_path
      cfg.self_signed m,
  Means-mode cfg m,
)
