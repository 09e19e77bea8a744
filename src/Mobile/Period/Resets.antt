-- ===== src/Mobile/Period/Resets.antt =====
-- The reset decision of mobile/src/period.rs.
use runix.Base.{
  Bool, Option, arith, err, false, none, ok, some, true, ℕ, ◌+◌, ◌<◌, ◌↔◌, ◌≡◌, ◌≤◌, ◌⊎◌,
}
use runix.Mobile.Period.Defs.{
  BillingPeriod, PeriodAssessment, ResetRefusal, assess_period, early_cooldown, next_period,
  period_active, reset_before_start, reset_permitted_at,
}
use runix.Mobile.Period.Assess.{IsPeriod}

-- When the governed reset is permitted, written out: with a period, the clock is not before its
-- start, and the period is over unless the reset is an early one; and an early reset comes at least
-- the cooldown after the last one.
abbrev pub PeriodPermits : Option BillingPeriod → Bool → ℕ → Type 0
PeriodPermits none early now = Unit {0}
PeriodPermits (some p) early now =
    (p.start_tick ≤ now) × ((early ≡ true) ⊎ (p.start_tick + p.length_ticks ≤ now))

abbrev pub CooldownPermits : Option ℕ → Bool → ℕ → ℕ → Type 0
CooldownPermits none early now cooldown = Unit {0}
CooldownPermits (some last) early now cooldown =
    (early ≡ false) ⊎ (last + cooldown ≤ now × last ≤ now)

abbrev pub assessed : Option BillingPeriod → ℕ → Option PeriodAssessment
assessed none now = none
assessed (some p) now = some (assess_period p now)

abbrev pub HasLength : Option BillingPeriod → Type 0
HasLength none = Unit {0}
HasLength (some p) = IsPeriod p

-- The decision permits a reset exactly under those conditions.
pub reset_permitted_at_iff :
    (period : Option BillingPeriod) (early : Bool) (last : Option ℕ) (now cooldown : ℕ)
    → HasLength period
    → (reset_permitted_at (assessed period now) early last now cooldown ≡ ok tt)
      ↔ (PeriodPermits period early now × CooldownPermits last early now cooldown)
unfolding reset_permitted_at assess_period
reset_permitted_at_iff none early last now cooldown h = ground arith
reset_permitted_at_iff (some p) early last now cooldown h = ground arith

abbrev pub CooldownLeft : Option ℕ → ℕ → ℕ → ℕ → Type 0
CooldownLeft none now cooldown k = ⊥
CooldownLeft (some last) now cooldown k =
    ((now < last) × (k ≡ cooldown))
    ⊎ ((last ≤ now) × (now < last + cooldown) × (now + k ≡ last + cooldown))

-- The refusal that is due, if any: first a clock before the start, in both modes; then, for a normal
-- reset, the ticks that the period has left; then, for an early one, the ticks that the cooldown has
-- left, which are all of it if the clock is before the last reset.
abbrev pub Refused : BillingPeriod → Bool → Option ℕ → ℕ → ℕ → ResetRefusal → Type 0
Refused p early last now cooldown (ResetRefusal.clock_before_start start at) =
    (now < p.start_tick) × (start ≡ p.start_tick) × (at ≡ now)
Refused p early last now cooldown (period_active k) =
    (p.start_tick ≤ now)
    × (now < p.start_tick + p.length_ticks)
    × (early ≡ false)
    × (now + k ≡ p.start_tick + p.length_ticks)
Refused p early last now cooldown (early_cooldown k) =
    (p.start_tick ≤ now) × (early ≡ true) × CooldownLeft last now cooldown k

-- For an account with a period, a reset is refused for a reason exactly when that reason is due.
pub reset-Refused_iff :
    (p : BillingPeriod) (early : Bool) (last : Option ℕ) (now cooldown : ℕ) (r : ResetRefusal)
    → IsPeriod p
    → (reset_permitted_at (some (assess_period p now)) early last now cooldown ≡ err r)
      ↔ Refused p early last now cooldown r
unfolding reset_permitted_at assess_period
reset-Refused_iff p early none now cooldown r h = ground arith
reset-Refused_iff p early (some l) now cooldown r h = ground arith

-- A period that a reset starts refuses a normal reset until it is over, and no longer.
pub next_period_gates :
    (old p : BillingPeriod) (t now : ℕ) (last : Option ℕ) (cooldown : ℕ)
    → IsPeriod old
    → next_period old t ≡ ok p
    → (reset_permitted_at (some (assess_period p now)) false last now cooldown ≡ ok tt)
      ↔ (t + old.length_ticks ≤ now)
unfolding next_period reset_permitted_at assess_period
next_period_gates old p t now last cooldown h e = ground arith

-- The next period is refused exactly before the old start, and otherwise has the old length and the
-- given start.
pub next_period_iff :
    (old : BillingPeriod) (t : ℕ)
    → IsPeriod old
    → ((t < old.start_tick) → next_period old t ≡ err (reset_before_start old.start_tick t))
      × ((old.start_tick ≤ t)
          → next_period old t ≡ ok (record { start_tick = t; length_ticks = old.length_ticks }))
unfolding next_period
next_period_iff old t h = (λ k. ground arith, λ k. ground arith)
