-- ===== src/Base/Word.antt =====
-- Rust's fixed-width unsigned arithmetic: the saturating and checked operations that the code uses.
use Prim.Native.Nat.{ℕ, ◌+◌, ◌-◌, ◌*◌, ◌^◌, min}
use mathlib.Core.Option.{Option, none, some}
use Prim.Native.Nat.{◌/◌}
use runix.Base.Tests.{if◌then◌else◌, leb, ltb, ◌==◌}

abbrev pub u64_max : ℕ
u64_max = 2 ^ 64 - 1

abbrev pub u128_max : ℕ
u128_max = 2 ^ 128 - 1

-- `a.saturating_add(b)`, `a.saturating_mul(b)` and `a.saturating_sub(b)`.
abbrev pub sat_add : ℕ → ℕ → ℕ
sat_add a b = min (a + b) u64_max

abbrev pub sat_mul : ℕ → ℕ → ℕ
sat_mul a b = min (a * b) u64_max

abbrev pub sat_mul128 : ℕ → ℕ → ℕ
sat_mul128 a b = min (a * b) u128_max

abbrev pub sat_sub : ℕ → ℕ → ℕ
sat_sub a b = a - b

-- `a.checked_sub(b)`, `a.checked_add(b)`, `a.checked_mul(b)` and `a.checked_div(b)`.
abbrev pub checked_sub : ℕ → ℕ → Option ℕ
checked_sub a b = if ltb a b then none else some (a - b)

abbrev pub checked_add : ℕ → ℕ → Option ℕ
checked_add a b = if leb (a + b) u64_max then some (a + b) else none

abbrev pub checked_mul : ℕ → ℕ → Option ℕ
checked_mul a b = if leb (a * b) u64_max then some (a * b) else none

abbrev pub checked_div : ℕ → ℕ → Option ℕ
checked_div a b = if b == 0 then none else some (a / b)
