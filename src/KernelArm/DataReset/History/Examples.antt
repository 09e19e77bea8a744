-- ===== src/KernelArm/DataReset/History/Examples.antt =====
-- Runs of `SYS_DATA_RESET` and of histories of the data state, and the theorems at those inputs.
use runix.Base.{[], arith, err, inl, none, ok, refl, true, ℕ, ◌+◌, ◌↔◌, ◌∷◌, ◌≡◌, ◌≢◌, ◌≤◌}
use runix.Mobile.Period.Defs.{
  assess_period, new_period, next_period, period_request, reset_permitted_at,
}
use runix.Mobile.Period.Resets.{CooldownPermits, PeriodPermits}
use runix.KernelArm.DataState.{
  DataState, advise_period, clear_usage, feed_usage, last_reset_tick, new, period_of, record_reset,
  reset_usage_and_period, start_next_period,
}
use runix.KernelArm.DataState.Tables.{IsValid}
use runix.KernelArm.DataReset.{
  ResetRequest, ResetTicks, assess_period_of, data_reset, denied_faulty, faulty, from_arg, is_early,
  reset_ok,
}
use runix.KernelArm.DataReset.Decision.{data_reset_iff, is_early_arg}
use runix.KernelArm.DataReset.History.{
  advises, closes_account, feeds, resets, run, run-IsValid, step,
}
use runix.KernelArm.DataReset.History.Apart.{normal_resets_apart}

abbrev ticks : ResetTicks
ticks = record { cooldown = 10; install_len = 50 }

abbrev with_period : DataState
with_period = record new {
  periods =
      record {
        account = 3;
        period = record { start_tick = 100; length_ticks = 50 };
        reset_requested_since = none;
      }
      ∷ [];
}

abbrev asks : ℕ → ℕ → ResetRequest
asks mode_arg now = record {
  account = 3;
  mode_arg = mode_arg;
  capable = true;
  entitled = true;
  known = true;
  gate_now = now;
  marshal = ok tt;
  now = now;
}

early_applied : (data_reset ticks with_period (asks 1 120)).0 ≡ reset_ok
unfolding data_reset from_arg assess_period_of assess_period reset_permitted_at last_reset_tick
    period_of
early_applied = refl

abbrev after : DataState
after = run ticks (data_reset ticks with_period (asks 1 120)).1 (feeds 3 12 ∷ advises 3 171 ∷ [])

late_applied : (data_reset ticks after (asks 0 172)).0 ≡ reset_ok
unfolding data_reset from_arg is_early assess_period_of assess_period reset_permitted_at
    last_reset_tick period_of run step feed_usage advise_period reset_usage_and_period clear_usage
    start_next_period record_reset next_period new_period period_request
late_applied = refl

data_reset_iff_example :
    (((data_reset ticks with_period (asks 1 120)).0 ≡ reset_ok) ↔ (
      (1 ≤ 1)
      × (true ≡ true)
      × (true ≡ true)
      × (true ≡ true)
      × (PeriodPermits (period_of with_period 3) (is_early_arg (asks 1 120)) 120
          × CooldownPermits (last_reset_tick with_period 3) (is_early_arg (asks 1 120)) 120 10)
      × ((asks 1 120).marshal ≡ ok tt)))
    × ((data_reset ticks with_period (asks 1 120)).0 ≢ reset_ok
        → (data_reset ticks with_period (asks 1 120)).1 ≡ with_period)
data_reset_iff_example =
    data_reset_iff ticks with_period (asks 1 120) (unfold period_of in omega arith)

-- A faulty answer of MARSHAL blocks the reset with a code of its own.
faulty_denied :
    (data_reset ticks with_period (record (asks 1 120) { marshal = err faulty })).0 ≡ denied_faulty
unfolding data_reset from_arg assess_period_of assess_period reset_permitted_at last_reset_tick
    period_of
faulty_denied = refl

run-IsValid_example :
    IsValid (run ticks new (feeds 3 12 ∷ resets (asks 1 120) ∷ closes_account 3 ∷ []))
run-IsValid_example =
    run-IsValid ticks new (feeds 3 12 ∷ resets (asks 1 120) ∷ closes_account 3 ∷ []) (record {
      usage_table = (tt, omega arith);
      period_table = (tt, omega arith);
      reset_table = (tt, omega arith);
      session_table = tt;
      few_sessions = omega arith;
    })

normal_resets_apart_example : 120 + 50 ≤ 172
unfolding period_of
normal_resets_apart_example =
    normal_resets_apart ticks with_period (asks 1 120) (asks 0 172)
      (feeds 3 12 ∷ advises 3 171 ∷ []) (omega arith) (inl refl) (omega arith) (omega arith)
      early_applied refl refl late_applied
