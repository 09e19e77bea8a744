-- ===== src/KernelArm/DataReset/History/Apart.antt =====
-- Histories of the data state under the syscalls of kernel-arm/src/svc.rs, and how far apart resets
-- are.
use runix.Mobile.Period.Resets.{HasLength, PeriodPermits}
use runix.Base.{
  ==-refl, ==_iff, Bool, Bool-cases, List, Option, Result-cases, [], arith, false, inl, inr,
  is_some, length, none, some, subst, sym, true, ℕ, ◌+◌, ◌<◌, ◌==◌, ◌∷◌, ◌≡◌, ◌≤◌, ◌⊎◌,
}
use runix.Mobile.Period.Defs.{BillingPeriod, install_period, new_period, next_period}
use runix.KernelArm.DataState.{DataState, PeriodStarted, max_data_accounts, period_of}
use runix.KernelArm.DataState.Views.{
  Reported, in_force, period_of-advise_period, period_of-periods, periods-close_session,
  periods-close_sessions_for_account, periods-close_sessions_for_profile, periods-decide_and_open,
  periods-feed_usage, periods-mark_observed, reset_usage_and_period_views,
}
use runix.KernelArm.DataReset.History.{
  Op, advises, closes, closes_account, closes_profile, feeds, marks, opens, resets, run, step,
}
use runix.KernelArm.DataReset.Decision.{code_not_ok, data_reset_iff, is_early_arg}
use runix.KernelArm.DataReset.{ResetRequest, ResetTicks, data_reset, reset_checks, reset_ok}

-- The account's period has the given length and starts at or after the tick.
abbrev pub Since : ℕ → ℕ → Option BillingPeriod → Type 0
Since tick len none = ⊥
Since tick len (some p) = (tick ≤ p.start_tick) × (p.length_ticks ≡ len)

next-Since :
    (entries tick len now : ℕ) (old : BillingPeriod) (r : PeriodStarted) (ilen : Option ℕ)
    → Reported entries (some old) now ilen r
    → Since tick len (some old)
    → Since tick len (in_force r (some old))
unfolding next_period
next-Since entries tick len now old r ilen rep h = elim rep [
  | inl (p, e, f) ↦ subst (λ z. Since tick len (in_force z (some old))) (sym f) (ground arith)
  | inr (x, e, f) ↦ subst (λ z. Since tick len (in_force z (some old))) (sym f) h
]

report-Since :
    (entries tick len now : ℕ) (before : Option BillingPeriod) (r : PeriodStarted) (ilen : Option ℕ)
    → Reported entries before now ilen r
    → Since tick len before
    → Since tick len (in_force r before)
report-Since entries tick len now none r ilen rep h = absurd h
report-Since entries tick len now (some old) r ilen rep h =
    next-Since entries tick len now old r ilen rep h

reset-Since :
    (t : ResetTicks) (s : DataState) (r : ResetRequest) (tick len c : ℕ)
    → Since tick len (period_of s c)
    → Since tick len (period_of (data_reset t s r).1 c)
unfolding data_reset
reset-Since t s r tick len c h = elim (Result-cases (reset_checks t s r)) [
  | inr (x, e) ↦ rw (e, data_reset) h
  | inl (u, e) ↦
      let views = reset_usage_and_period_views s r.account r.now (some t.install_len) in
      rw (e, data_reset, views.4 c)
        (elim (Bool-cases (r.account == c)) [
          | inl q ↦
              let here : Since tick len (period_of s r.account) =
                subst (λ z. Since tick len (period_of s z)) (sym ((==_iff r.account c).0 q)) h in
              rw q (
                report-Since (length s.periods) tick len r.now (period_of s r.account) _
                  (some t.install_len) views.2 here)
          | inr q ↦ rw q h
        ])
]

same-Since :
    (s s' : DataState) (tick len c : ℕ)
    → s'.periods ≡ s.periods
    → Since tick len (period_of s c)
    → Since tick len (period_of s' c)
same-Since s s' tick len c e h = rw (period_of-periods s' s c e) h

step-Since :
    (t : ResetTicks) (s : DataState) (o : Op) (tick len c : ℕ)
    → Since tick len (period_of s c)
    → Since tick len (period_of (step t s o) c)
unfolding step
step-Since t s (feeds a b) tick len c h = same-Since s _ tick len c (periods-feed_usage s a b) h
step-Since t s (advises a now) tick len c h = rw (period_of-advise_period s a now c) h
step-Since t s (opens a slot profile roams st lc e) tick len c h =
    same-Since s _ tick len c (periods-decide_and_open s a slot profile roams st lc e) h
step-Since t s (closes a slot profile) tick len c h =
    same-Since s _ tick len c (periods-close_session s a slot profile) h
step-Since t s (closes_account a) tick len c h =
    same-Since s _ tick len c (periods-close_sessions_for_account s a) h
step-Since t s (closes_profile slot profile) tick len c h =
    same-Since s _ tick len c (periods-close_sessions_for_profile s slot profile) h
step-Since t s (marks o) tick len c h = same-Since s _ tick len c (periods-mark_observed s o) h
step-Since t s (resets r) tick len c h = reset-Since t s r tick len c h

run-Since :
    (t : ResetTicks) (s : DataState) (os : List Op) (tick len c : ℕ)
    → Since tick len (period_of s c)
    → Since tick len (period_of (run t s os) c)
unfolding run
run-Since t s [] tick len c h = h
run-Since t s (o ∷ os) tick len c h =
    run-Since t (step t s o) os tick len c (step-Since t s o tick len c h)

Since-length : (tick len : ℕ) (p : Option BillingPeriod) → 0 < len → Since tick len p → HasLength p
Since-length tick len none pos h = tt
Since-length tick len (some p) pos h = omega arith

Since-permits :
    (tick len now : ℕ) (p : Option BillingPeriod)
    → Since tick len p
    → PeriodPermits p false now
    → tick + len ≤ now
Since-permits tick len now none h k = absurd h
Since-permits tick len now (some p) h k = ground arith

-- A normal reset that is applied comes after the end of the period in force.
normal_after_end :
    (t : ResetTicks) (s : DataState) (r : ResetRequest) (tick len : ℕ)
    → 0 < len
    → r.mode_arg ≡ 0
    → (data_reset t s r).0 ≡ reset_ok
    → Since tick len (period_of s r.account)
    → tick + len ≤ r.gate_now
normal_after_end t s r tick len pos mode done h =
    let facts =
      (data_reset_iff t s r (Since-length tick len (period_of s r.account) pos h)).0.0 done in
    let normal : is_early_arg r ≡ false = ground arith in
    Since-permits tick len r.gate_now (period_of s r.account) h
      (subst (λ b. PeriodPermits (period_of s r.account) b r.gate_now) normal facts.4.0)

-- The length of the period that a reset starts.
abbrev pub cycle : ResetTicks → Option BillingPeriod → ℕ
cycle t none = t.install_len
cycle t (some p) = p.length_ticks

cycle_pos :
    (t : ResetTicks) (p : Option BillingPeriod) → HasLength p → 0 < t.install_len → 0 < cycle t p
cycle_pos t none h pos = pos
cycle_pos t (some p) h pos = h

-- There is an entry for the account's period, or room for one.
abbrev pub HasRoom : DataState → ℕ → Type 0
HasRoom s a = (is_some (period_of s a) ≡ true) ⊎ (length s.periods < max_data_accounts)

begun-Since :
    (t : ResetTicks) (entries gate now : ℕ) (early : Bool) (before : Option BillingPeriod)
    (r : PeriodStarted)
    → (is_some before ≡ true) ⊎ (entries < max_data_accounts)
    → 0 < t.install_len
    → gate ≤ now
    → PeriodPermits before early gate
    → Reported entries before now (some t.install_len) r
    → HasLength before
    → Since now (cycle t before) (in_force r before)
unfolding next_period install_period new_period
begun-Since t entries gate now early none r room pos later perm rep h = elim rep [
  | inl (p, e, alt) ↦ elim alt [
    | inl f ↦ subst (λ z. Since now t.install_len (in_force z none)) (sym f) (ground arith)
    | inr (f, full) ↦ absurd (ground arith)
  ]
  | inr (x, e, f) ↦ absurd (ground arith)
]
begun-Since t entries gate now early (some old) r room pos later perm rep h = elim rep [
  | inl (p, e, f) ↦
      subst (λ z. Since now old.length_ticks (in_force z (some old))) (sym f) (ground arith)
  | inr (x, e, f) ↦ absurd (ground arith)
]

-- An applied reset leaves a period that starts at its tick.
applied-Since :
    (t : ResetTicks) (s : DataState) (r : ResetRequest)
    → HasLength (period_of s r.account)
    → HasRoom s r.account
    → 0 < t.install_len
    → r.gate_now ≤ r.now
    → (data_reset t s r).0 ≡ reset_ok
    → Since r.now (cycle t (period_of s r.account)) (period_of (data_reset t s r).1 r.account)
unfolding data_reset
applied-Since t s r h room pos later done = elim (Result-cases (reset_checks t s r)) [
  | inr (x, e) ↦ absurd (code_not_ok t s r x e (rw (e, data_reset) at done))
  | inl (u, e) ↦
      let views = reset_usage_and_period_views s r.account r.now (some t.install_len) in
      let facts = (data_reset_iff t s r h).0.0 done in
      rw (e, data_reset, views.4 r.account, ==-refl r.account)
        (begun-Since t (length s.periods) r.gate_now r.now (is_early_arg r) (period_of s r.account)
          _ room pos later facts.4.0 views.2 h)
]

-- Once a reset of either mode has been applied to an account, whatever the history after it, a normal
-- reset of that account is applied only when a whole period has passed since then. The account's
-- period has a length, its table an entry or room, and the timer does not run backwards within the
-- first reset.
pub normal_resets_apart :
    (t : ResetTicks) (s : DataState) (first later : ResetRequest) (history : List Op)
    → HasLength (period_of s first.account)
    → HasRoom s first.account
    → 0 < t.install_len
    → first.gate_now ≤ first.now
    → (data_reset t s first).0 ≡ reset_ok
    → later.account ≡ first.account
    → later.mode_arg ≡ 0
    → (data_reset t (run t (data_reset t s first).1 history) later).0 ≡ reset_ok
    → first.now + cycle t (period_of s first.account) ≤ later.gate_now
normal_resets_apart t s first later history h room pos clock done same mode done2 =
    let begun = applied-Since t s first h room pos clock done in
    let s2 = run t (data_reset t s first).1 history in
    let kept =
      run-Since t (data_reset t s first).1 history first.now (cycle t (period_of s first.account))
        first.account begun in
    normal_after_end t s2 later first.now (cycle t (period_of s first.account))
      (cycle_pos t (period_of s first.account) h pos) mode done2
      (subst (λ z. Since first.now (cycle t (period_of s first.account)) (period_of s2 z))
        (sym same) kept)
