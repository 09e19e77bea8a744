-- ===== src/KernelArm/DataState/Marks.antt =====
-- The marks in the tables of kernel-arm/src/data_state.rs: the usage that a reconciliation last saw, and
-- the tick since when a reset is asked for; and all that a reset does, the marks included.
use runix.Base.Keyed.{viewed}
use runix.Base.{Option, none, some, ℕ}
use runix.Mobile.Policy as Policy
use runix.KernelArm.DataState.{
  DataState, PeriodEntry, PeriodStarted, UsageEntry, installed, no_period, rejected, started,
}
use runix.KernelArm.DataState.Views.{period_key, usage_key}

abbrev pub last_used_in : Option UsageEntry → Option ℕ
last_used_in none = none
last_used_in (some e) = e.last_used

abbrev pub requested_in : Option PeriodEntry → Option ℕ
requested_in none = none
requested_in (some e) = e.reset_requested_since

-- The usage of an account that the reconciler last saw.
abbrev pub last_used_of : DataState → ℕ → Option ℕ
last_used_of s account = viewed usage_key last_used_in s.usage account

-- Since when a reset of an account is asked for.
abbrev pub requested_of : DataState → ℕ → Option ℕ
requested_of s account = viewed period_key requested_in s.periods account

-- A period that begins is not asked to be reset; without one, what was asked for stays.
abbrev pub requested_after : PeriodStarted → Option ℕ → Option ℕ
requested_after no_period before = before
requested_after (started p) before = none
requested_after (installed p) before = none
requested_after (rejected e) before = before
