-- ===== src/Mobile/Period/Examples.antt =====
-- Runs of mobile/src/period.rs, and the theorems at those inputs.
use mathlib.Core.List.{filter_map}
use mathlib.Core.List.Perm
use runix.Base.{
  List, Option, [], arith, err, false, none, ok, refl, some, true, ℕ, ◌+◌, ◌<◌, ◌↔◌, ◌∷◌, ◌≡◌, ◌≤◌,
  ◌⊎◌,
}
use runix.Base.Sort.{sort}
use runix.Base.Membership.{In, occurrences}
use runix.Mobile.Period.Defs.{
  BillingPeriod, PeriodAssessment, active, assess_period, early_cooldown, elapsed, next_period,
  period_active, reset_permitted_at,
}
use runix.Mobile.Period.Assess.{Assessed, assess_period_iff}
use runix.Mobile.Period.Resets.{
  CooldownPermits, PeriodPermits, Refused, assessed, next_period_gates, reset-Refused_iff,
  reset_permitted_at_iff,
}
use runix.Mobile.Period.Check.{
  ObservedPeriod, PeriodIncident, accounts, check_periods, dup_incident, period_elapsed_no_reset,
}
use runix.Mobile.Period.Check.Order.{check_periods-eq_of_perm}
use runix.Mobile.Period.Check.Report.{Due, check_periods-In}

abbrev cycle : BillingPeriod
cycle = record { start_tick = 100; length_ticks = 50 }

assess_runs :
    (assess_period cycle 120 ≡ active 20 30)
    × (assess_period cycle 150 ≡ elapsed 0 1)
    × (assess_period cycle 260 ≡ elapsed 110 3)
    × (assess_period cycle 99 ≡ PeriodAssessment.clock_before_start 100 99)
unfolding assess_period
assess_runs = (refl, refl, refl, refl)

reset_runs :
    (reset_permitted_at (some (active 20 30)) false none 120 10 ≡ err (period_active 30))
    × (reset_permitted_at (some (active 20 30)) true (some 115) 120 10 ≡ err (early_cooldown 5))
    × (reset_permitted_at (some (active 20 30)) true (some 130) 120 10 ≡ err (early_cooldown 10))
unfolding reset_permitted_at
reset_runs = (refl, refl, refl)

abbrev observed_at : ℕ → Option ℕ → ObservedPeriod
observed_at account since = record {
  account = account;
  period = cycle;
  reset_requested_since = since;
}

abbrev three : List ObservedPeriod
three = observed_at 7 none ∷ observed_at 3 (some 160) ∷ observed_at 9 none ∷ observed_at 9 none ∷ []

abbrev late_3 : PeriodIncident
late_3 = record { kind = period_elapsed_no_reset; account = 3; expected = 165; observed = 170 }

abbrev late_7 : PeriodIncident
late_7 = record { kind = period_elapsed_no_reset; account = 7; expected = 155; observed = 170 }

check_periods_run : check_periods three 170 5 ≡ dup_incident 9 2 ∷ late_3 ∷ late_7 ∷ []
unfolding check_periods sort assess_period filter_map
check_periods_run = refl

assess_period_iff_example :
    (assess_period cycle 260 ≡ elapsed 110 3) ↔ Assessed cycle 260 (elapsed 110 3)
assess_period_iff_example = assess_period_iff cycle 260 (elapsed 110 3) (omega arith)

reset_permitted_at_iff_example :
    (reset_permitted_at (assessed (some cycle) 120) true (some 110) 120 10 ≡ ok tt)
    ↔ (PeriodPermits (some cycle) true 120 × CooldownPermits (some 110) true 120 10)
reset_permitted_at_iff_example =
    reset_permitted_at_iff (some cycle) true (some 110) 120 10 (omega arith)

reset-Refused_iff_example :
    (reset_permitted_at (some (assess_period cycle 120)) true (some 115) 120 10
      ≡ err (early_cooldown 5))
    ↔ Refused cycle true (some 115) 120 10 (early_cooldown 5)
reset-Refused_iff_example =
    reset-Refused_iff cycle true (some 115) 120 10 (early_cooldown 5) (omega arith)

next_cycle : next_period cycle 170 ≡ ok (record { start_tick = 170; length_ticks = 50 })
unfolding next_period
next_cycle = refl

next_period_gates_example :
    (reset_permitted_at
        (some (assess_period (record { start_tick = 170; length_ticks = 50 }) 200))
        false
        none
        200
        0
      ≡ ok tt)
    ↔ (170 + 50 ≤ 200)
next_period_gates_example =
    next_period_gates cycle (record { start_tick = 170; length_ticks = 50 }) 170 200 none 0
      (omega arith) next_cycle

check_periods-eq_of_perm_example :
    check_periods three 170 5
    ≡ check_periods
        (observed_at 3 (some 160)
          ∷ observed_at 7 none
          ∷ observed_at 9 none
          ∷ observed_at 9 none
          ∷ [])
        170
        5
check_periods-eq_of_perm_example = check_periods-eq_of_perm three _ 170 5 (Perm.swap _ _ _)

check_periods-In_example : In late_3 (check_periods three 170 5) ↔ (
    ((account : ℕ) × (1 < occurrences account (accounts three))
      × (late_3 ≡ dup_incident account (occurrences account (accounts three))))
    ⊎ ((p : ObservedPeriod) × In p three
        × (occurrences p.account (accounts three) ≡ 1)
        × Due p 170 5 late_3))
check_periods-In_example =
    check_periods-In three 170 5 late_3 (omega arith) (omega arith) (omega arith)
