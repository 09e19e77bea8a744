-- ===== src/KernelArm/DataReset/History.antt =====
-- Histories of the data state: what the syscalls of kernel-arm/src/svc.rs and the reconciler call on
-- it, in any order.
pub mod Apart
mod Examples
use runix.Base.{Bool, List, Result-cases, [], inl, inr, some, ℕ, ◌∷◌}
use runix.Mobile.Policy.{AccountStandingForData, DataEntitlement, ProfileLifecycleForData}
use runix.KernelArm.DataState.{
  DataState, UsageEntry, advise_period, close_session, close_sessions_for_account,
  close_sessions_for_profile, decide_and_open, feed_usage, mark_observed,
}
use runix.KernelArm.DataState.Tables.{
  IsValid, advise_period-IsValid, feed_usage-IsValid, mark_observed-IsValid,
  reset_usage_and_period-IsValid,
}
use runix.KernelArm.DataState.Sessions.{
  close_session-IsValid, close_sessions_for_account-IsValid, close_sessions_for_profile-IsValid,
  decide_and_open-IsValid,
}
use runix.KernelArm.DataReset.{ResetRequest, ResetTicks, data_reset, reset_checks}

-- What the syscalls and the reconciler call on the data state.
pub data Op : Type 0 where
  feeds advises : ℕ → ℕ → Op
  opens : ℕ → ℕ → ℕ → Bool → AccountStandingForData → ProfileLifecycleForData → DataEntitlement → Op
  closes : ℕ → ℕ → ℕ → Op
  closes_account : ℕ → Op
  closes_profile : ℕ → ℕ → Op
  marks : List UsageEntry → Op
  resets : ResetRequest → Op

pub step : ResetTicks → DataState → Op → DataState
step t s (feeds account bytes) = (feed_usage s account bytes).1
step t s (advises account now) = (advise_period s account now).1
step t s (opens account slot profile roams standing lifecycle entitlement) =
    (decide_and_open s account slot profile roams standing lifecycle entitlement).1
step t s (closes account slot profile) = (close_session s account slot profile).1
step t s (closes_account account) = (close_sessions_for_account s account).1
step t s (closes_profile slot profile) = (close_sessions_for_profile s slot profile).1
step t s (marks observed) = mark_observed s observed
step t s (resets r) = (data_reset t s r).1

pub run : ResetTicks → DataState → List Op → DataState
run t s [] = s
run t s (o ∷ os) = run t (step t s o) os

data_reset-IsValid :
    (t : ResetTicks) (s : DataState) (r : ResetRequest) → IsValid s → IsValid (data_reset t s r).1
unfolding data_reset
data_reset-IsValid t s r v = elim (Result-cases (reset_checks t s r)) [
  | inl (u, e) ↦
      rw (e, data_reset) (reset_usage_and_period-IsValid s r.account r.now (some t.install_len) v)
  | inr (x, e) ↦ rw (e, data_reset) v
]

step-IsValid : (t : ResetTicks) (s : DataState) (o : Op) → IsValid s → IsValid (step t s o)
unfolding step
step-IsValid t s (feeds a b) v = feed_usage-IsValid s v a b
step-IsValid t s (advises a now) v = advise_period-IsValid s v a now
step-IsValid t s (opens a slot profile roams st lc e) v =
    decide_and_open-IsValid s v a slot profile roams st lc e
step-IsValid t s (closes a slot profile) v = close_session-IsValid s v a slot profile
step-IsValid t s (closes_account a) v = close_sessions_for_account-IsValid s v a
step-IsValid t s (closes_profile slot profile) v =
    close_sessions_for_profile-IsValid s v slot profile
step-IsValid t s (marks os) v = mark_observed-IsValid s os v
step-IsValid t s (resets r) v = data_reset-IsValid t s r v

-- Every history keeps the tables well-formed: at most 16 entries in each, no account twice in the
-- usage, period and reset tables, and no session twice.
pub run-IsValid : (t : ResetTicks) (s : DataState) (os : List Op) → IsValid s → IsValid (run t s os)
unfolding run
run-IsValid t s [] v = v
run-IsValid t s (o ∷ os) v = run-IsValid t (step t s o) os (step-IsValid t s o v)
