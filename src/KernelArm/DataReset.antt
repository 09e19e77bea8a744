-- ===== src/KernelArm/DataReset.antt =====
-- kernel-arm/src/svc.rs: the decision and the effect of `SYS_DATA_RESET`, on the data state. What the
-- other subsystems answer (the capability check, the entitlement table, the account registry, the
-- MARSHAL gate, the two readings of the timer) is given with each request.
pub mod Decision
pub mod History
use mathlib.Core.Option
use runix.Base.{
  Bool, Option, Result, ensure, err, false, if◌then◌else◌, none, ok, ok_or, some, true, ℕ, ◌==◌,
  ◌>>=◌, ◌>>◌,
}
use runix.Mobile.Period.Defs.{PeriodAssessment, ResetRefusal, assess_period, reset_permitted_at}
use runix.KernelArm.DataState.{DataState, last_reset_tick, period_of, reset_usage_and_period}

pub data ResetMode : Type 0 where
  normal_mode early_mode : ResetMode

-- `ResetMode::from_arg`
pub from_arg : ℕ → Option ResetMode
from_arg mode_arg =
    if mode_arg == 0 then some normal_mode else if mode_arg == 1 then some early_mode else none

pub is_early : ResetMode → Bool
is_early normal_mode = false
is_early early_mode = true

-- `Blocked`, without the verdict or the failure that it tells, which the code does not depend on.
pub data Blocked : Type 0 where
  remote local unreachable faulty : Blocked

pub record ResetRequest : Type 0 where
  pub account : ℕ
  pub mode_arg : ℕ
  pub capable : Bool
  pub entitled : Bool
  pub known : Bool
  pub gate_now : ℕ
  pub marshal : Result Blocked (Unit {0})
  pub now : ℕ

-- The cooldown and the length of an installed period, in ticks of the timer.
pub record ResetTicks : Type 0 where
  pub cooldown : ℕ
  pub install_len : ℕ

pub data ResetCode : Type 0 where
  reset_ok bad_mode denied_capability no_entitlement no_such_account : ResetCode
  denied_marshal denied_local_failure denied_unreachable denied_faulty : ResetCode
  refused : ResetRefusal → ResetCode

-- `data::assess_period_of`
pub assess_period_of : DataState → ℕ → ℕ → Option PeriodAssessment
assess_period_of s account now = Option.map (λ p. assess_period p now) (period_of s account)

pub reset_blocked_code : Blocked → ResetCode
reset_blocked_code remote = denied_marshal
reset_blocked_code local = denied_local_failure
reset_blocked_code unreachable = denied_unreachable
reset_blocked_code faulty = denied_faulty

-- The checks before the data lock, in the order of the handler.
pub reset_checks : ResetTicks → DataState → ResetRequest → Result ResetCode (Unit {0})
unfolding from_arg is_early reset_blocked_code
reset_checks t s r = do
  mode ← ok_or (from_arg r.mode_arg) bad_mode
  ensure r.capable denied_capability
  ensure r.entitled no_entitlement
  ensure r.known no_such_account
  elim (reset_permitted_at (assess_period_of s r.account r.gate_now) (is_early mode)
      (last_reset_tick s r.account) r.gate_now t.cooldown) [ err e ↦ err (refused e) | ok u ↦ ok u ]
  elim r.marshal [ err b ↦ err (reset_blocked_code b) | ok u ↦ ok u ]

pub data_reset : ResetTicks → DataState → ResetRequest → ResetCode × DataState
unfolding reset_checks
data_reset t s r = elim (reset_checks t s r) [
  | err code ↦ (code, s)
  | ok _ ↦ (reset_ok, (reset_usage_and_period s r.account r.now (some t.install_len)).1)
]
