-- ===== src/Mobile/Period/Assess.antt =====
-- `assess_period` of mobile/src/period.rs against exact interval arithmetic.
use runix.Base.{arith, dec_lt, ok, subst, ℕ, ◌*◌, ◌+◌, ◌-◌, ◌/◌, ◌<◌, ◌↔◌, ◌≡◌, ◌≤◌}
use runix.Mobile.Period.Defs.{
  BillingPeriod, PeriodAssessment, active, assess_period, clock_before_start, elapsed, new_period,
}

-- What the constructor and the types guarantee: the length is not zero.
abbrev pub IsPeriod : BillingPeriod → Type 0
IsPeriod p = 0 < p.length_ticks

pub new_period-IsPeriod :
    (start len : ℕ) (p : BillingPeriod)
    → (new_period start len ≡ ok p) ↔ (IsPeriod p × (p.start_tick ≡ start) × (p.length_ticks ≡ len))
unfolding new_period
new_period-IsPeriod start len p = ground arith

-- What an assessment states, where the end of the period is taken without wrap-around.
abbrev pub Assessed : BillingPeriod → ℕ → PeriodAssessment → Type 0
Assessed p now (active gone left) =
    (p.start_tick ≤ now)
    × (now < p.start_tick + p.length_ticks)
    × (p.start_tick + gone ≡ now)
    × (now + left ≡ p.start_tick + p.length_ticks)
Assessed p now (elapsed over missed) =
    (p.start_tick + p.length_ticks ≤ now)
    × (p.start_tick + p.length_ticks + over ≡ now)
    × (1 ≤ missed)
    × (p.start_tick + missed * p.length_ticks ≤ now)
    × (now < p.start_tick + (missed + 1) * p.length_ticks)
Assessed p now (clock_before_start start at) =
    (now < p.start_tick) × (start ≡ p.start_tick) × (at ≡ now)

div_lower : (a b : ℕ) → 0 < b → a / b * b ≤ a
div_lower a b h = grind arith

div_upper : (a b : ℕ) → 0 < b → a < (a / b + 1) * b
div_upper a b h = grind arith

div_pos : (a b : ℕ) → 0 < b → b ≤ a → 1 ≤ a / b
div_pos a b h k = grind arith

assess_sound : (p : BillingPeriod) (now : ℕ) → IsPeriod p → Assessed p now (assess_period p now)
unfolding assess_period
assess_sound p now h = ground (
  arith,
  div_lower (now - p.start_tick) p.length_ticks,
  div_upper (now - p.start_tick) p.length_ticks,
  div_pos (now - p.start_tick) p.length_ticks,
)

le_of_mul : (m n b x : ℕ) → n * b ≤ x → x < (m + 1) * b → m < n → ⊥
le_of_mul m n b x h k l = grind arith

mul_bracket : (m n b x : ℕ) → m * b ≤ x → x < (n + 1) * b → m ≤ n
mul_bracket m n b x h k = elim (dec_lt n m) [
  | yes l ↦ absurd (le_of_mul n m b x h k l)
  | no g ↦ omega arith
]

Assessed-unique :
    (p : BillingPeriod) (now : ℕ) (a b : PeriodAssessment)
    → Assessed p now a
    → Assessed p now b
    → a ≡ b
Assessed-unique p now (active g l) (active g' l') x y = ground arith
Assessed-unique p now (elapsed o m) (elapsed o' m') x y =
    let ends = now - p.start_tick in
    ground (
      arith,
      mul_bracket m m' p.length_ticks ends (omega arith) (omega arith),
      mul_bracket m' m p.length_ticks ends (omega arith) (omega arith),
    )
Assessed-unique p now (clock_before_start s n) (clock_before_start s' n') x y = ground arith
Assessed-unique p now (active g l) (elapsed o m) x y = absurd (omega arith)
Assessed-unique p now (active g l) (clock_before_start s n) x y = absurd (omega arith)
Assessed-unique p now (elapsed o m) (active g l) x y = absurd (omega arith)
Assessed-unique p now (elapsed o m) (clock_before_start s n) x y = absurd (omega arith)
Assessed-unique p now (clock_before_start s n) (active g l) x y = absurd (omega arith)
Assessed-unique p now (clock_before_start s n) (elapsed o m) x y = absurd (omega arith)

-- A period is assessed exactly as the exact arithmetic says: active with the ticks gone and left,
-- elapsed with the ticks over its end and the number of whole periods since its start, or before
-- its start.
pub assess_period_iff :
    (p : BillingPeriod) (now : ℕ) (a : PeriodAssessment)
    → IsPeriod p
    → (assess_period p now ≡ a) ↔ Assessed p now a
assess_period_iff p now a h = (
  λ e. subst (Assessed p now) e (assess_sound p now h),
  Assessed-unique p now (assess_period p now) a (assess_sound p now h),
)
