-- ===== src/Gateway/Api/AuditLog.antt =====
-- hackline/crates/hackline-gateway/src/api/audit/list.rs
pub mod Subjects
use codeless_workspace.Base.{
  ℕ, zero, suc, ◌+◌, ◌-◌, ◌*◌, ◌/◌, ◌%◌, ◌^◌, ◌≤◌, ◌<◌, min, max, String, ◌≡◌, refl, sym, ap, ◌∙◌,
  ◌≢◌, ◌↔◌, ◌⊎◌, inl, inr, Bool, true, false, not, ◌&&◌, ◌||◌, Option, none, some, List, [], ◌∷◌,
  ◌++◌, map, reverse, arith, ltb, leb, ◌==◌, if◌then◌else◌, Bool-cases, Option-cases, Text, codes,
  ◌=t◌, =t_iff, =t_refl, =t_sound, All, length, true-ne-false, is_some, is_none, unwrap_or, ◌>>=?◌,
  ℤ, pos, negsuc,
}
use codeless_workspace.Gateway.Db.Audit.{list_recent}
use codeless_workspace.Gateway.Exec.{Exec, ◌>>=◌, pure}
use codeless_workspace.Gateway.Json.{Json}
use codeless_workspace.Gateway.Schema.{AuditEntry, User, Database}
use codeless_workspace.Proto.Keyexpr.{digits}

pub record AuditEntryView (V : Type 0) : Type 0 where
  pub id : ℕ
  pub at : ℕ
  pub actor_user_id : Option ℕ
  pub action : Text
  pub subject : Text
  pub detail : V

pub record AuditPage (V : Type 0) : Type 0 where
  pub items : List (AuditEntryView V)
  pub next_cursor : Option ℕ

-- `{id}` of an `i64`, which has at most nineteen digits
unfoldable pub show_i64 : ℤ → Text
unfolding digits
show_i64 (pos n) = digits 19 n
show_i64 (negsuc n) = b'-' ∷ digits 19 (suc n)

-- The arms of the `if let` chain, from the columns and from the ids in the detail.
unfoldable pub subject_of : Option ℕ → Option ℕ → Option ℤ → Option ℤ → Option ℕ → Text
unfolding show_i64
subject_of (some t) _ _ _ _ = codes "tunnel:" ++ show_i64 (pos t)
subject_of none (some d) _ _ _ = codes "device:" ++ show_i64 (pos d)
subject_of none none (some t) _ _ = codes "tunnel:" ++ show_i64 t
subject_of none none none (some d) _ = codes "device:" ++ show_i64 d
subject_of none none none none (some u) = codes "user:" ++ show_i64 (pos u)
subject_of none none none none none = []

module _ (json : Json) where
  open json use {Value, null, from_str, get, single, as_i64}

  unfoldable pub detail_id : Value → Text → Option ℤ
  detail_id detail key = get detail key >>=? as_i64

  unfoldable pub detail_of : Option Text → Value
  detail_of none = null
  detail_of (some s) = unwrap_or (from_str s) (single (codes "raw") s)

  unfoldable pub project : AuditEntry → AuditEntryView Value
  unfolding detail_id detail_of subject_of
  project row =
      let detail = detail_of row.detail in
      record {
        id = row.id;
        at = row.ts;
        actor_user_id = row.user_id;
        action = row.action;
        subject =
            subject_of row.tunnel_id row.device_id (detail_id detail (codes "tunnel_id"))
              (detail_id detail (codes "device_id")) row.user_id;
        detail = detail;
      }

  -- audit::list::handler
  unfoldable pub handler : User → ℤ → Exec Database (AuditPage Value)
  unfolding list_recent project
  handler caller limit = do
    rows ← list_recent caller.org_id limit
    pure (record { items = map project rows; next_cursor = none })
