-- ===== src/Pi/Subagent/Accounting/Once.antt =====
-- A child's failure is counted at most once, and so is the recovery from it, whatever the registry of
-- recent children evicts in between.
use mathlib.Core.Path.{subst}
use observ_me.Prelude.{
  ℕ, ◌+◌, ◌≡◌, refl, sym, inl, inr, ◌≤◌, ◌==◌, Bool, ◌&&◌, List, [], ◌∷◌, Str, str_equality,
  str_eq_iff, if◌then◌else◌, Bool-cases, arith,
}
use observ_me.Util.MembershipFilter.{Digest}
use observ_me.Pi.Subagent.Accounting.{Ledger, record_child_failure_accounting, new_ledger}
use observ_me.Pi.Subagent.Accounting.Steps.{
  step, Sound, Failed, Recovered, step-IsSoundLedger, step-keeps_failure, step-knows_failure,
  step-counts_no_failure, step-counts_no_recovery, step-keeps_recovery, step-knows_recovery,
}

module _ (sha256 : Str → Digest) (max_spawns : ℕ) where
  -- How often a run of calls counts the failure of a child, and the recovery from it.
  abbrev pub failures_counted : Str → List (Str × Bool) → Ledger → ℕ
  failures_counted c [] l = 0
  failures_counted c ((k, confirmed) ∷ calls) l =
      let (counted, l') = record_child_failure_accounting sha256 max_spawns k confirmed l in
      (if k == c && counted.failure then 1 else 0) + failures_counted c calls l'

  abbrev pub recoveries_counted : Str → List (Str × Bool) → Ledger → ℕ
  recoveries_counted c [] l = 0
  recoveries_counted c ((k, confirmed) ∷ calls) l =
      let (counted, l') = record_child_failure_accounting sha256 max_spawns k confirmed l in
      (if k == c && counted.recovery then 1 else 0) + recoveries_counted c calls l'

  no_failures :
      (c : Str) (calls : List (Str × Bool)) (l : Ledger)
      → Sound sha256 max_spawns l
      → Failed sha256 max_spawns c l
      → failures_counted c calls l ≡ 0
  no_failures c [] l h known = refl
  no_failures c ((k, confirmed) ∷ calls) l h known =
      let rest =
        no_failures c calls (step sha256 max_spawns k confirmed l).1
          (step-IsSoundLedger sha256 max_spawns k confirmed l h)
          (step-keeps_failure sha256 max_spawns c k confirmed l h known) in
      elim (Bool-cases (k == c)) [
        | inr apart ↦ rw (apart, rest) refl
        | inl same ↦
            let none_counted =
              step-counts_no_failure sha256 max_spawns k confirmed l h
                (subst (λ x. Failed sha256 max_spawns x l) (sym ((str_eq_iff k c).0 same)) known) in
            rw (same, none_counted, rest) refl
      ]

  no_recoveries :
      (c : Str) (calls : List (Str × Bool)) (l : Ledger)
      → Sound sha256 max_spawns l
      → Recovered sha256 max_spawns c l
      → recoveries_counted c calls l ≡ 0
  no_recoveries c [] l h known = refl
  no_recoveries c ((k, confirmed) ∷ calls) l h known =
      let rest =
        no_recoveries c calls (step sha256 max_spawns k confirmed l).1
          (step-IsSoundLedger sha256 max_spawns k confirmed l h)
          (step-keeps_recovery sha256 max_spawns c k confirmed l h known) in
      elim (Bool-cases (k == c)) [
        | inr apart ↦ rw (apart, rest) refl
        | inl same ↦
            let none_counted = step-counts_no_recovery sha256 max_spawns k confirmed l (
              subst (λ x. Recovered sha256 max_spawns x l) (sym ((str_eq_iff k c).0 same)) known) in
            rw (same, none_counted, rest) refl
      ]

  failures_once :
      (c : Str) (calls : List (Str × Bool)) (l : Ledger)
      → Sound sha256 max_spawns l
      → failures_counted c calls l ≤ 1
  failures_once c [] l h = omega arith
  failures_once c ((k, confirmed) ∷ calls) l h =
      let h' = step-IsSoundLedger sha256 max_spawns k confirmed l h in
      elim (Bool-cases (k == c)) [
        | inr apart ↦
            rw apart
              (omega (arith, failures_once c calls (step sha256 max_spawns k confirmed l).1 h'))
        | inl same ↦
            let known =
              subst (λ x. Failed sha256 max_spawns x (step sha256 max_spawns k confirmed l).1)
                ((str_eq_iff k c).0 same) (step-knows_failure sha256 max_spawns k confirmed l h) in
            ground (arith, no_failures c calls (step sha256 max_spawns k confirmed l).1 h' known)
      ]

  recoveries_once :
      (c : Str) (calls : List (Str × Bool)) (l : Ledger)
      → Sound sha256 max_spawns l
      → recoveries_counted c calls l ≤ 1
  recoveries_once c [] l h = omega arith
  recoveries_once c ((k, confirmed) ∷ calls) l h =
      let h' = step-IsSoundLedger sha256 max_spawns k confirmed l h in
      let later = recoveries_once c calls (step sha256 max_spawns k confirmed l).1 h' in
      elim (Bool-cases (k == c)) [
        | inr apart ↦ rw apart (omega (arith, later))
        | inl same ↦ elim (Bool-cases (step sha256 max_spawns k confirmed l).0.recovery) [
          | inr uncounted ↦ rw (same, uncounted) (omega (arith, later))
          | inl counted ↦
              let known =
                subst (λ x. Recovered sha256 max_spawns x (step sha256 max_spawns k confirmed l).1)
                  ((str_eq_iff k c).0 same)
                  (step-knows_recovery sha256 max_spawns k confirmed l h counted) in
              ground
                (arith, no_recoveries c calls (step sha256 max_spawns k confirmed l).1 h' known)
        ]
      ]

  -- In a session, whatever children fail and recover in whatever order, and however many the bounded
  -- registry forgets, the failure of one child is counted at most once, and so is the recovery from it.
  pub record_child_failure_accounting_once :
      (c : Str) (calls : List (Str × Bool))
      → (failures_counted c calls (new_ledger max_spawns) ≤ 1)
        × (recoveries_counted c calls (new_ledger max_spawns) ≤ 1)
  unfolding new_ledger
  record_child_failure_accounting_once c calls =
      let fresh : Sound sha256 max_spawns (new_ledger max_spawns) = record {
        unique = tt;
        bounded = omega arith;
        recorded = tt;
      } in
      (
        failures_once c calls (new_ledger max_spawns) fresh,
        recoveries_once c calls (new_ledger max_spawns) fresh,
      )
