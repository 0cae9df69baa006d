-- ===== src/Gateway/Liveliness.antt =====
-- hackline/crates/hackline-gateway/src/liveliness.rs, less the task that loops.
pub mod Presence
use codeless_workspace.Base.{
  ℕ, zero, suc, ◌+◌, ◌-◌, ◌*◌, ◌/◌, ◌%◌, ◌^◌, ◌≤◌, ◌<◌, min, max, String, ◌≡◌, refl, sym, ap, ◌∙◌,
  ◌≢◌, ◌↔◌, ◌⊎◌, inl, inr, Bool, true, false, not, ◌&&◌, ◌||◌, Option, none, some, List, [], ◌∷◌,
  ◌++◌, map, reverse, arith, ltb, leb, ◌==◌, if◌then◌else◌, Bool-cases, Option-cases, Text, codes,
  ◌=t◌, =t_iff, =t_refl, =t_sound, All, length, true-ne-false, is_some, is_none, unwrap_or, ◌>>=?◌,
}
use codeless_workspace.Gateway.Db.Orgs
use codeless_workspace.Proto.Keyexpr.{parse_health_keyexpr}
use codeless_workspace.Gateway.Error.{bad_request, unparsable_keyexpr, unknown_org}
use codeless_workspace.Gateway.Exec.{Exec, or_raise, require, pure, ◌>>=◌, ◌>>◌}
use codeless_workspace.Gateway.Schema.{Database, Org}
use codeless_workspace.Gateway.Db.Devices.{upsert_seen, mark_offline}

pub data SampleKind : Type 0 where
  put delete : SampleKind

apply : SampleKind → ℕ → Text → ℕ → Exec Database (Unit {0})
unfolding upsert_seen mark_offline
apply put org_id zid epoch = do _ ← upsert_seen org_id zid epoch; pure tt
apply delete org_id zid epoch = mark_offline org_id zid

-- handle_sample
unfoldable pub handle_sample : Text → SampleKind → ℕ → Exec Database (Unit {0})
unfolding parse_health_keyexpr Orgs.get_by_slug apply
handle_sample ke kind epoch = do
  (org_slug, zid) ← or_raise (parse_health_keyexpr ke) (bad_request unparsable_keyexpr)
  found ← Orgs.get_by_slug org_slug
  org ← or_raise found (bad_request unknown_org)
  apply kind org.id zid.as_str epoch
