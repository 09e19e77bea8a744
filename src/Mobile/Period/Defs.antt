-- ===== src/Mobile/Period/Defs.antt =====
-- mobile/src/period.rs: the billing period, its assessment and the reset decision.
use runix.Base.{
  Bool, Option, Result, checked_div, checked_sub, err, if◌then◌else◌, leb, ltb, none, ok, sat_sub,
  some, u64_max, ℕ, ◌==◌, ◌>>◌,
}

abbrev pub max_periods : ℕ
max_periods = 64

abbrev pub demo_period_ticks : ℕ
demo_period_ticks = 1_000

abbrev pub demo_early_reset_cooldown_millis : ℕ
demo_early_reset_cooldown_millis = 3_600_000

pub data PeriodError : Type 0 where
  zero_length : PeriodError
  reset_before_start : (start_tick reset_at_tick : ℕ) → PeriodError

-- The fields are private to the source's module, so a value has a length that is not zero.
pub record BillingPeriod : Type 0 where
  pub start_tick : ℕ
  pub length_ticks : ℕ

-- `BillingPeriod::new`
unfoldable pub new_period : ℕ → ℕ → Result PeriodError BillingPeriod
new_period start_tick length_ticks =
    if length_ticks == 0
    then err zero_length
    else ok (record { start_tick = start_tick; length_ticks = length_ticks })

unfoldable pub demo_period : ℕ → BillingPeriod
demo_period start_tick = record { start_tick = start_tick; length_ticks = demo_period_ticks }

pub data PeriodAssessment : Type 0 where
  active : (elapsed remaining : ℕ) → PeriodAssessment
  elapsed : (overdue_ticks periods_missed : ℕ) → PeriodAssessment
  clock_before_start : (start_tick now_tick : ℕ) → PeriodAssessment

assess_elapsed : BillingPeriod → ℕ → PeriodAssessment
assess_elapsed period gone =
    elapsed (sat_sub gone period.length_ticks)
      (elim (checked_div gone period.length_ticks) [ none ↦ u64_max | some n ↦ n ])

unfoldable pub assess_period : BillingPeriod → ℕ → PeriodAssessment
unfolding assess_elapsed
assess_period period now_tick = elim (checked_sub now_tick period.start_tick) [
  | none ↦ clock_before_start period.start_tick now_tick
  | some gone ↦ elim (checked_sub period.length_ticks gone) [
    | none ↦ assess_elapsed period gone
    | some left ↦ if ltb 0 left then active gone left else assess_elapsed period gone
  ]
]

pub data PeriodRequest : Type 0 where
  request_reset_usage : PeriodRequest

request_of : PeriodAssessment → Option PeriodRequest
request_of (elapsed o m) = some request_reset_usage
request_of (active e r) = none
request_of (clock_before_start s n) = none

unfoldable pub period_request : BillingPeriod → ℕ → Option PeriodRequest
unfolding request_of
period_request period now_tick = request_of (assess_period period now_tick)

unfoldable pub next_period : BillingPeriod → ℕ → Result PeriodError BillingPeriod
unfolding new_period
next_period old reset_at_tick =
    if ltb reset_at_tick old.start_tick
    then err (reset_before_start old.start_tick reset_at_tick)
    else new_period reset_at_tick old.length_ticks

pub data ResetRefusal : Type 0 where
  period_active : (remaining : ℕ) → ResetRefusal
  clock_before_start : (start_tick now_tick : ℕ) → ResetRefusal
  early_cooldown : (remaining : ℕ) → ResetRefusal

unfoldable pub reset_permitted : Option PeriodAssessment → Bool → Result ResetRefusal (Unit {0})
reset_permitted none early = ok tt
reset_permitted (some (elapsed o m)) early = ok tt
reset_permitted (some (active e remaining)) early =
    if early then ok tt else err (period_active remaining)
reset_permitted (some (PeriodAssessment.clock_before_start start_tick now_tick)) early =
    err (ResetRefusal.clock_before_start start_tick now_tick)

-- The cooldown of an early reset, after the period has permitted it.
early_permitted : Option ℕ → ℕ → ℕ → Result ResetRefusal (Unit {0})
early_permitted none now_tick cooldown_ticks = ok tt
early_permitted (some last) now_tick cooldown_ticks = elim (checked_sub now_tick last) [
  | none ↦ err (early_cooldown cooldown_ticks)
  | some gone ↦
      if leb cooldown_ticks gone then ok tt else err (early_cooldown (sat_sub cooldown_ticks gone))
]

unfoldable pub reset_permitted_at :
    Option PeriodAssessment → Bool → Option ℕ → ℕ → ℕ → Result ResetRefusal (Unit {0})
unfolding reset_permitted early_permitted
reset_permitted_at assessment early last_reset_tick now_tick cooldown_ticks = do
  reset_permitted assessment early
  if early then early_permitted last_reset_tick now_tick cooldown_ticks else ok tt

unfoldable pub install_period : ℕ → ℕ → Result PeriodError BillingPeriod
unfolding new_period
install_period reset_at_tick length_ticks = new_period reset_at_tick length_ticks
