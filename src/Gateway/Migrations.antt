-- ===== src/Gateway/Migrations.antt =====
-- hackline/crates/hackline-gateway/src/db/migrations.rs
pub mod Once
use codeless_workspace.Base.{
  ℕ, zero, suc, ◌+◌, ◌-◌, ◌*◌, ◌/◌, ◌%◌, ◌^◌, ◌≤◌, ◌<◌, min, max, String, ◌≡◌, refl, sym, ap, ◌∙◌,
  ◌≢◌, ◌↔◌, ◌⊎◌, inl, inr, Bool, true, false, not, ◌&&◌, ◌||◌, Option, none, some, List, [], ◌∷◌,
  ◌++◌, map, reverse, arith, ltb, leb, ◌==◌, if◌then◌else◌, Bool-cases, Option-cases, Text, codes,
  ◌=t◌, =t_iff, =t_refl, =t_sound, All, length, true-ne-false, is_some, is_none, unwrap_or, ◌>>=?◌,
}
use codeless_workspace.Gateway.Error.{Result, err, ok}
use codeless_workspace.Gateway.Exec.{Exec, pure, ◌>>◌}

pub record Migration : Type 0 where
  pub version : ℕ
  pub name : Text

abbrev pub migrations : List Migration
migrations =
    record { version = 1; name = codes "V001__init" }
    ∷ record { version = 2; name = codes "V002__message_plane" }
    ∷ record { version = 3; name = codes "V003__cmd_outbox" }
    ∷ record { version = 4; name = codes "V004__audit_session_columns" }
    ∷ record { version = 5; name = codes "V005__orgs" }
    ∷ record { version = 6; name = codes "V006__audit_tunnel_session_ts_seconds" }
    ∷ record { version = 7; name = codes "V007__audit_fks_on_delete_set_null" }
    ∷ []

-- A row of _migrations.
pub record Applied : Type 0 where
  pub version : ℕ
  pub name : Text
  pub applied_at : ℕ

-- The rows of _migrations, and the other tables.
pub record Schema (S : Type 0) : Type 0 where
  pub tables : S
  pub applied : List Applied

unfoldable pub is_applied : ℕ → List Applied → Bool
is_applied version [] = false
is_applied version (a ∷ rows) = a.version == version || is_applied version rows

-- The batch of a version, which leaves the tables as its last statement that ran left them.
module _ {S : Type 0} (batch : ℕ → S → Result (Unit {0}) × S) where
  -- After the batch: the row is new, so that its INSERT meets no other of its version.
  unfoldable pub record_applied :
      Migration → ℕ → List Applied → Result (Unit {0}) × S → Result (Unit {0}) × Schema S
  record_applied m now rows (err e, tables) = (err e, record { tables = tables; applied = rows })
  record_applied m now rows (ok u, tables) = (
    ok tt,
    record {
      tables = tables;
      applied = rows ++ record { version = m.version; name = m.name; applied_at = now } ∷ [];
    },
  )

  unfoldable pub apply_one : Migration → ℕ → Exec (Schema S) (Unit {0})
  unfolding is_applied record_applied
  apply_one m now s =
      if is_applied m.version s.applied
      then (ok tt, s)
      else record_applied m now s.applied (batch m.version s.tables)

  -- The loop of `run`.
  unfoldable pub run_all : List Migration → ℕ → Exec (Schema S) (Unit {0})
  unfolding apply_one
  run_all [] now = pure tt
  run_all (m ∷ ms) now = do apply_one m now; run_all ms now

  unfoldable pub run : ℕ → Exec (Schema S) (Unit {0})
  unfolding run_all
  run now = run_all migrations now
