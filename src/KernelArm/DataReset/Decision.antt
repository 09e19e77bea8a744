-- ===== src/KernelArm/DataReset/Decision.antt =====
-- When `SYS_DATA_RESET` of kernel-arm/src/svc.rs is applied.
use runix.Base.{
  Bool, Option-cases, Result, Result-cases, arith, err, inl, inr, ok, refl, sym, true, ℕ, ◌==◌, ◌↔◌,
  ◌∙◌, ◌≡◌, ◌≢◌, ◌≤◌,
}
use runix.Mobile.Period.Defs.{ResetRefusal, reset_permitted_at}
use runix.Mobile.Period.Resets.{
  CooldownPermits, HasLength, PeriodPermits, assessed, reset_permitted_at_iff,
}
use runix.KernelArm.DataState.{DataState, last_reset_tick, period_of}
use runix.KernelArm.DataReset.{
  ResetCode, ResetRequest, ResetTicks, assess_period_of, data_reset, reset_checks, reset_ok,
}

abbrev pub is_early_arg : ResetRequest → Bool
is_early_arg r = r.mode_arg == 1

-- The answer of the period gate.
abbrev gate : ResetTicks → DataState → ResetRequest → Bool → Result ResetRefusal (Unit {0})
gate t s r early =
    reset_permitted_at (assess_period_of s r.account r.gate_now) early (last_reset_tick s r.account)
      r.gate_now t.cooldown

checks_iff :
    (t : ResetTicks) (s : DataState) (r : ResetRequest)
    → (reset_checks t s r ≡ ok tt) ↔ (
        (r.mode_arg ≤ 1)
        × (r.capable ≡ true)
        × (r.entitled ≡ true)
        × (r.known ≡ true)
        × (gate t s r (is_early_arg r) ≡ ok tt)
        × (r.marshal ≡ ok tt))
unfolding reset_checks
checks_iff t s r = ground arith

assess_period_of_lem :
    (s : DataState) (a now : ℕ) → assess_period_of s a now ≡ assessed (period_of s a) now
unfolding assess_period_of
assess_period_of_lem s a now = elim (Option-cases (period_of s a)) [
  | inl e ↦ rw e
  | inr (p, e) ↦ rw e
]

err_not_ok : (x : ResetCode) → ¬ (◌≡◌ {A = Result ResetCode (Unit {0})} (err x) (ok tt))
err_not_ok x e = cc

pub code_not_ok :
    (t : ResetTicks) (s : DataState) (r : ResetRequest) (x : ResetCode)
    → reset_checks t s r ≡ err x
    → ¬ (x ≡ reset_ok)
unfolding reset_checks
code_not_ok t s r x e q = absurd (ground arith)

-- For an account whose period has a length, a reset is applied exactly when its mode is 0 (normal) or
-- 1 (early), the capability, the entitlement and the account are there, the period and, for an early
-- one, the cooldown permit it at the first reading of the timer, and the gate allows it; otherwise
-- the state is left as it was.
pub data_reset_iff :
    (t : ResetTicks) (s : DataState) (r : ResetRequest)
    → HasLength (period_of s r.account)
    → (((data_reset t s r).0 ≡ reset_ok) ↔ (
        (r.mode_arg ≤ 1)
        × (r.capable ≡ true)
        × (r.entitled ≡ true)
        × (r.known ≡ true)
        × (PeriodPermits (period_of s r.account) (is_early_arg r) r.gate_now
            × CooldownPermits (last_reset_tick s r.account) (is_early_arg r) r.gate_now t.cooldown)
        × (r.marshal ≡ ok tt)))
      × ((data_reset t s r).0 ≢ reset_ok → (data_reset t s r).1 ≡ s)
unfolding data_reset
data_reset_iff t s r h =
    let permitted : (gate t s r (is_early_arg r) ≡ ok tt) ↔ (
        PeriodPermits (period_of s r.account) (is_early_arg r) r.gate_now
        × CooldownPermits (last_reset_tick s r.account) (is_early_arg r) r.gate_now t.cooldown) =
      rw (assess_period_of_lem s r.account r.gate_now) (
        reset_permitted_at_iff (period_of s r.account) (is_early_arg r)
          (last_reset_tick s r.account) r.gate_now t.cooldown h) in
    let checks = checks_iff t s r in
    elim (Result-cases (reset_checks t s r)) [
      | inl (u, e) ↦
          let c = checks.0 e in
          rw (e, data_reset)
            ((λ _. (c.0, c.1, c.2, c.3, permitted.0 c.4, c.5), λ _. refl), λ n. absurd (n refl))
      | inr (x, e) ↦
          rw (e, data_reset)
            (
              (
                λ q. absurd (code_not_ok t s r x e q),
                λ c.
                    absurd
                      (err_not_ok x (sym e ∙ checks.1 (c.0, c.1, c.2, c.3, permitted.1 c.4, c.5))),
              ),
              λ _. refl,
            )
    ]
