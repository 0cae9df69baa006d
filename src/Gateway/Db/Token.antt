-- ===== src/Gateway/Db/Token.antt =====
-- hackline/crates/hackline-gateway/src/auth/token.rs. The digest and the random bytes come from
-- crates: the digest is a parameter, and the raw form of a fresh token an argument.
use codeless_workspace.Base.{
  ◌≡◌, ◌↔◌, Bool, true, false, arith, ◌==◌, if◌then◌else◌, Text, ◌=t◌, =t_refl, =t_sound, length,
}

pub record Digest : Type 0 where
  -- `hex::encode(Sha256::digest(raw))`
  pub sha256_hex : Text → Text

pub record TokenPair : Type 0 where
  pub raw : Text
  pub hash : Text

-- `generate`, from the encoded random bytes
unfoldable pub generate : Digest → Text → TokenPair
generate digest raw = record { raw = raw; hash = digest.sha256_hex raw }

-- The constant-time comparison compares whole texts of one length.
unfoldable pub hashes_match : Text → Text → Bool
unfolding ◌=t◌
hashes_match a b = if length a == length b then a =t b else false

-- Hashes match exactly when they are equal.
pub hashes_match_iff : (a b : Text) → (hashes_match a b ≡ true) ↔ (a ≡ b)
unfolding hashes_match
hashes_match_iff a b = (λ h. =t_sound a b (ground arith), λ e. rw e (ground (arith, =t_refl b)))
