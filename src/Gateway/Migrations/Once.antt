-- ===== src/Gateway/Migrations/Once.antt =====
-- Each migration is applied once.
use codeless_workspace.Base.{
  ℕ, ◌≡◌, refl, sym, ap, ◌∙◌, inl, inr, true, false, List, [], ◌∷◌, ◌++◌, ◌==◌, Bool-cases, All,
  true-ne-false, ==_refl, subst,
}
use codeless_workspace.Gateway.Error.{Result, ok, err}
use codeless_workspace.Gateway.Exec.{continue-ok}
use codeless_workspace.Gateway.Migrations.{
  Schema, record_applied, run, apply_one, is_applied, run_all, Migration, Applied, migrations,
}

-- The version is in the table already.
abbrev pub IsApplied : {S : Type 0} → Schema S → Migration → Type 0
IsApplied s m = is_applied m.version s.applied ≡ true

module _ {S : Type 0} (batch : ℕ → S → Result (Unit {0}) × S) where
  is_applied-append :
      (v : ℕ) (rows more : List Applied)
      → is_applied v rows ≡ true
      → is_applied v (rows ++ more) ≡ true
  unfolding is_applied
  is_applied-append v [] more h = absurd (true-ne-false {b = false} h refl)
  is_applied-append v (a ∷ rows) more h = elim (Bool-cases (a.version == v)) [
    | inl e ↦ rw e refl
    | inr e ↦ rw e (is_applied-append v rows more (sym (rw e refl) ∙ h))
  ]

  is_applied_last :
      (v : ℕ) (rows : List Applied) (a : Applied)
      → a.version ≡ v
      → is_applied v (rows ++ a ∷ []) ≡ true
  unfolding is_applied
  is_applied_last v [] a e = rw e (rw (==_refl v) refl)
  is_applied_last v (b ∷ rows) a e = elim (Bool-cases (b.version == v)) [
    | inl here ↦ rw here refl
    | inr later ↦ rw later (is_applied_last v rows a e)
  ]

  record_applied-IsApplied :
      (m : Migration) (now : ℕ) (rows : List Applied) (r : Result (Unit {0}) × S)
      → ((n : Migration)
          → is_applied n.version rows ≡ true
          → IsApplied (record_applied batch m now rows r).1 n)
        × ((record_applied batch m now rows r).0 ≡ ok tt
            → IsApplied (record_applied batch m now rows r).1 m)
  unfolding record_applied
  record_applied-IsApplied m now rows (err e, tables) = (λ n h. h, λ h. cc)
  record_applied-IsApplied m now rows (ok u, tables) =
      (λ n h. is_applied-append n.version rows _ h, λ h. is_applied_last m.version rows _ refl)

  apply_one-IsApplied :
      (m : Migration) (now : ℕ) (s : Schema S)
      → ((n : Migration) → IsApplied s n → IsApplied (apply_one batch m now s).1 n)
        × ((apply_one batch m now s).0 ≡ ok tt → IsApplied (apply_one batch m now s).1 m)
  unfolding apply_one
  apply_one-IsApplied m now s = elim (Bool-cases (is_applied m.version s.applied)) [
    | inl e ↦ rw e (λ n h. h, λ h. e)
    | inr e ↦ rw e (record_applied-IsApplied m now s.applied (batch m.version s.tables))
  ]

  -- What is applied stays so, and everything is once all migrations went through.
  run_all-IsApplied :
      (ms : List Migration) (now : ℕ) (s : Schema S)
      → (run_all batch ms now s).0 ≡ ok tt
      → ((n : Migration) → IsApplied s n → IsApplied (run_all batch ms now s).1 n)
        × All (IsApplied (run_all batch ms now s).1) ms
  unfolding run_all
  run_all-IsApplied [] now s h = (λ n k. k, tt)
  run_all-IsApplied (m ∷ ms) now s h =
      let (u, went, e) = continue-ok (apply_one batch m now s) (λ _. run_all batch ms now) h in
      let next : Schema S = (apply_one batch m now s).1 in
      let (keeps, done_one) = apply_one-IsApplied m now s in
      let (stays, every) = run_all-IsApplied ms now next (sym (ap (λ r. r.0) e) ∙ h) in
      subst
        (λ (r : Result (Unit {0}) × Schema S).
          ((n : Migration) → IsApplied s n → IsApplied r.1 n) × All (IsApplied r.1) (m ∷ ms))
        (sym e) (λ n k. stays n (keeps n k), (stays m (done_one went), every))

  run_all_again :
      (ms : List Migration) (now : ℕ) (s : Schema S)
      → All (IsApplied s) ms
      → run_all batch ms now s ≡ (ok tt, s)
  unfolding run_all apply_one
  run_all_again [] now s h = refl
  run_all_again (m ∷ ms) now s (h, hs) = rw h (run_all_again ms now s hs)

  -- A boot after one whose migrations all went through changes nothing and answers ok, whatever the
  -- batches do: each is run once.
  pub run-run :
      (now later : ℕ) (s : Schema S)
      → (run batch now s).0 ≡ ok tt
      → run batch later (run batch now s).1 ≡ (ok tt, (run batch now s).1)
  unfolding run
  run-run now later s h =
      run_all_again migrations later (run_all batch migrations now s).1
        (run_all-IsApplied migrations now s h).1
