-- ===== src/Proto/Keyexpr/Segments.antt =====
-- The segments of the keys that the builders of keyexpr.rs make.
use codeless_workspace.Base.{
  ◌≡◌, ap, ◌∙◌, ◌∷◌, ◌++◌, arith, Text, codes, Lacks, split, split-append,
}
use codeless_workspace.Proto.Zid.{Zid}
use codeless_workspace.Proto.Zid.Canonical.{IsCanonical, IsCanonical-Lacks}
use codeless_workspace.Proto.Keyexpr.{under}

-- What a well-formed key is built from: an org without a slash, and a canonical id.
module _ {org : Text} {zid : Zid} (plain : Lacks b'/' org)
    (canonical : IsCanonical zid.as_str) where
  pub split-under :
      (rest : Text)
      → split b'/' (under org zid rest) ≡ codes "hackline" ∷ org ∷ zid.as_str ∷ split b'/' rest
  unfolding under
  split-under rest =
      split-append b'/' (codes "hackline") _ (omega arith)
      ∙ ap (◌∷◌ (codes "hackline")) (
          split-append b'/' org _ plain
          ∙ ap (◌∷◌ org) (split-append b'/' zid.as_str rest (IsCanonical-Lacks canonical)))

-- Two segments that are fixed, and the rest.
pub split_words :
    (a b rest : Text)
    → Lacks b'/' a
    → Lacks b'/' b
    → split b'/' (a ++ b'/' ∷ (b ++ b'/' ∷ rest)) ≡ a ∷ b ∷ split b'/' rest
split_words a b rest ha hb = split-append b'/' a _ ha ∙ ap (◌∷◌ a) (split-append b'/' b rest hb)
