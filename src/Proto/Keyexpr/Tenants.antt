-- ===== src/Proto/Keyexpr/Tenants.antt =====
-- When two keys of keyexpr.rs are the same text.
use codeless_workspace.Base.{
  ◌≡◌, sym, ap, ◌∙◌, List, [], ◌∷◌, arith, Text, codes, Lacks, split, join, join-split-replace,
}
use codeless_workspace.Proto.Zid.{Zid}
use codeless_workspace.Proto.Zid.Canonical.{IsCanonical}
use codeless_workspace.Proto.Keyexpr.{under, msg_cmd, topic_to_keyexpr_suffix}
use codeless_workspace.Proto.Keyexpr.Segments.{split-under, split_words}

head_or : List Text → Text → Text
head_or [] d = d
head_or (s ∷ ss) d = s

tail_of : List Text → List Text
tail_of [] = []
tail_of (s ∷ ss) = ss

-- Two keys that are the same text, of orgs without a slash and canonical ids, are of the same org
-- and the same device, and go on with the same segments.
pub under_injective :
    {org org' : Text} {zid zid' : Zid} (r r' : Text)
    → Lacks b'/' org
    → Lacks b'/' org'
    → IsCanonical zid.as_str
    → IsCanonical zid'.as_str
    → under org zid r ≡ under org' zid' r'
    → (org ≡ org') × (zid.as_str ≡ zid'.as_str) × (split b'/' r ≡ split b'/' r')
unfolding head_or tail_of
under_injective {org} {org'} {zid} {zid'} r r' p p' c c' e =
    let s : codes "hackline" ∷ org ∷ zid.as_str ∷ split b'/' r
        ≡ codes "hackline" ∷ org' ∷ zid'.as_str ∷ split b'/' r' =
      sym (split-under p c r) ∙ ap (split b'/') e ∙ split-under p' c' r' in
    (
      ap (λ l. head_or (tail_of l) []) s,
      ap (λ l. head_or (tail_of (tail_of l)) []) s,
      ap (λ l. tail_of (tail_of (tail_of l))) s,
    )

suffix_injective :
    (t t' : Text)
    → Lacks b'/' t
    → Lacks b'/' t'
    → split b'/' (topic_to_keyexpr_suffix t) ≡ split b'/' (topic_to_keyexpr_suffix t')
    → t ≡ t'
unfolding topic_to_keyexpr_suffix
suffix_injective t t' h h' e =
    sym (join-split-replace b'.' b'/' t h) ∙ ap (join b'.') e ∙ join-split-replace b'.' b'/' t' h'

-- Two command keys are equal only if org, device and topic are.
pub msg_cmd_injective :
    {org org' : Text} {zid zid' : Zid} (t t' : Text)
    → Lacks b'/' org
    → Lacks b'/' org'
    → IsCanonical zid.as_str
    → IsCanonical zid'.as_str
    → Lacks b'/' t
    → Lacks b'/' t'
    → msg_cmd org zid t ≡ msg_cmd org' zid' t'
    → (org ≡ org') × (zid.as_str ≡ zid'.as_str) × (t ≡ t')
unfolding msg_cmd head_or tail_of
msg_cmd_injective t t' p p' c c' h h' e =
    let (o, z, s) = under_injective _ _ p p' c c' e in
    (
      o,
      z,
      suffix_injective t t' h h' (
          ap (λ l. tail_of (tail_of l))
            (sym (
                split_words (codes "msg") (codes "cmd") (topic_to_keyexpr_suffix t) (omega arith)
                  (omega arith))
              ∙ s
              ∙ split_words (codes "msg") (codes "cmd") (topic_to_keyexpr_suffix t') (omega arith)
                  (omega arith))),
    )
