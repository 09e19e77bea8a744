-- ===== src/KernelArm/DataState/Views.antt =====
-- What the methods of kernel-arm/src/data_state.rs do to the state that a reader sees: the usage, the
-- period and the last reset of each account.
use mathlib.Core.Option
use mathlib.Core.Path.{fun_ext}
use runix.Mobile.Period.Defs.{
  BillingPeriod, PeriodError, install_period, next_period, period_request,
}
use runix.Base.{
  ==_iff, Bool, Bool-cases, List, Option, Option-cases, Result-cases, ap, arith, err, inl, inr,
  is_some, leb, leb→le, length, none, not, ok, refl, some, subst, sym, ℕ, ◌&&◌, ◌==◌, ◌∙◌, ◌≡◌, ◌≤◌,
  ◌⊎◌,
}
use runix.Base.Keyed.{at, updated, viewed, viewed-update_first, viewed_push}
use runix.Mobile.Policy.{
  AccountStandingForData, DataEntitlement, DataUsage, ProfileLifecycleForData, apply_usage,
}
use runix.Mobile.Policy as Policy
use runix.KernelArm.DataState.{
  DataState, PeriodEntry, PeriodStarted, ResetEntry, UsageEntry, advise_period, clear_usage,
  close_session, close_sessions_for_account, close_sessions_for_profile, decide_and_open,
  feed_usage, install, installed, last_reset_tick, mark_observed, max_data_accounts, no_period,
  period_of, record_reset, record_session, rejected, reset_usage_and_period, set_period,
  start_next_period, started, table_full, usage_of, usage_or_zero,
}

abbrev pub usage_key : UsageEntry → ℕ
usage_key e = e.account

abbrev pub period_key : PeriodEntry → ℕ
period_key e = e.account

abbrev reset_key : ResetEntry → ℕ
reset_key e = e.account

-- Feeding usage: the account's counter grows by saturating addition and no other counter changes;
-- or the table is full, and nothing changes.
pub feed_usage_views :
    (s : DataState) (a bytes : ℕ)
    → let grown = apply_usage (usage_of s a) bytes in
      let (res, s') = feed_usage s a bytes in
      ((res ≡ ok (usage_of s a, grown))
        × ((c : ℕ) → usage_of s' c ≡ updated (usage_of s) a grown c)
        × (s'.sessions ≡ s.sessions)
        × (s'.periods ≡ s.periods)
        × (s'.last_resets ≡ s.last_resets))
      ⊎ ((res ≡ err table_full) × (s' ≡ s) × (max_data_accounts ≤ length s.usage))
unfolding feed_usage usage_of
feed_usage_views s a bytes = elim (Option-cases (at usage_key a s.usage)) [
  | inl e ↦ elim (Bool-cases (leb max_data_accounts (length s.usage))) [
    | inl full ↦ rw (e, feed_usage, full) (inr (refl, refl, leb→le _ _ full))
    | inr room ↦
        rw (e, feed_usage, room)
          (inl
            (refl, λ c. viewed_push usage_key usage_or_zero a c _ s.usage refl e, refl, refl, refl))
  ]
  | inr (u, e) ↦
      rw (e, feed_usage)
        (inl (
          refl,
          λ c. viewed-update_first usage_key usage_or_zero _ a c s.usage u (λ x. refl) e,
          refl,
          refl,
          refl,
        ))
]

no_entry_zero :
    (xs : List UsageEntry) (a c : ℕ)
    → at usage_key a xs ≡ none
    → viewed usage_key usage_or_zero xs c
      ≡ updated (viewed usage_key usage_or_zero xs) a Policy.reset_usage c
unfolding usage_or_zero
no_entry_zero xs a c e = elim (Bool-cases (a == c)) [
  | inl t ↦
      let same : at usage_key c xs ≡ none =
        subst (λ z. at usage_key z xs ≡ none) ((==_iff a c).0 t) e in
      rw (t, same) (unfold Policy.reset_usage in refl)
  | inr t ↦ rw t
]

-- Clearing usage: the account's counter is zero, the old one is returned, nothing else changes.
pub clear_usage_views :
    (s : DataState) (a : ℕ)
    → let (counts, s') = clear_usage s a in
      (counts ≡ (usage_of s a, Policy.reset_usage))
      × ((c : ℕ) → usage_of s' c ≡ updated (usage_of s) a Policy.reset_usage c)
      × (s'.sessions ≡ s.sessions)
      × (s'.periods ≡ s.periods)
      × (s'.last_resets ≡ s.last_resets)
unfolding clear_usage usage_of
clear_usage_views s a = elim (Option-cases (at usage_key a s.usage)) [
  | inl e ↦ rw (e, clear_usage) (refl, λ c. no_entry_zero s.usage a c e, refl, refl, refl)
  | inr (u, e) ↦
      rw (e, clear_usage)
        (
          refl,
          λ c. viewed-update_first usage_key usage_or_zero _ a c s.usage u (λ x. refl) e,
          refl,
          refl,
          refl,
        )
]

record_reset_views :
    (s : DataState) (a now : ℕ)
    → let (res, s') = record_reset s a now in
      ((res ≡ ok tt)
        × ((c : ℕ) → last_reset_tick s' c ≡ updated (last_reset_tick s) a (some now) c)
        × (s'.usage ≡ s.usage)
        × (s'.sessions ≡ s.sessions)
        × (s'.periods ≡ s.periods))
      ⊎ ((res ≡ err table_full) × (s' ≡ s) × (max_data_accounts ≤ length s.last_resets))
unfolding record_reset last_reset_tick
record_reset_views s a now = elim (Option-cases (at reset_key a s.last_resets)) [
  | inl e ↦ elim (Bool-cases (leb max_data_accounts (length s.last_resets))) [
    | inl full ↦ rw (e, record_reset, full) (inr (refl, refl, leb→le _ _ full))
    | inr room ↦
        rw (e, record_reset, room)
          (inl (
            refl,
            λ c.
                viewed_push reset_key (Option.map (λ e. e.last_reset_tick)) a c _ s.last_resets refl
                  e,
            refl,
            refl,
            refl,
          ))
  ]
  | inr (u, e) ↦
      rw (e, record_reset)
        (inl (
          refl,
          λ c.
              viewed-update_first reset_key (Option.map (λ e. e.last_reset_tick)) _ a c
                s.last_resets u (λ x. refl) e,
          refl,
          refl,
          refl,
        ))
]

pub set_period_views :
    (s : DataState) (a : ℕ) (p : BillingPeriod)
    → let (res, s') = set_period s a p in
      ((res ≡ ok tt)
        × ((c : ℕ) → period_of s' c ≡ updated (period_of s) a (some p) c)
        × (s'.usage ≡ s.usage)
        × (s'.sessions ≡ s.sessions)
        × (s'.last_resets ≡ s.last_resets))
      ⊎ ((res ≡ err table_full) × (s' ≡ s) × (max_data_accounts ≤ length s.periods))
unfolding set_period period_of
set_period_views s a p = elim (Option-cases (at period_key a s.periods)) [
  | inl e ↦ elim (Bool-cases (leb max_data_accounts (length s.periods))) [
    | inl full ↦ rw (e, set_period, full) (inr (refl, refl, leb→le _ _ full))
    | inr room ↦
        rw (e, set_period, room)
          (inl (
            refl,
            λ c. viewed_push period_key (Option.map (λ e. e.period)) a c _ s.periods refl e,
            refl,
            refl,
            refl,
          ))
  ]
  | inr (u, e) ↦
      rw (e, set_period)
        (inl (
          refl,
          λ c.
              viewed-update_first period_key (Option.map (λ e. e.period)) _ a c s.periods u
                (λ x. refl) e,
          refl,
          refl,
          refl,
        ))
]

-- The period in force after a call, given what the call reports and the period before it.
abbrev pub in_force : PeriodStarted → Option BillingPeriod → Option BillingPeriod
in_force no_period before = before
in_force (started p) before = some p
in_force (installed p) before = some p
in_force (rejected e) before = before

-- What is reported, from the number of entries and the period before: the next period, or an
-- installed one if there is room.
abbrev pub Reported : ℕ → Option BillingPeriod → ℕ → Option ℕ → PeriodStarted → Type 0
Reported entries (some old) now len r =
    ((p : BillingPeriod) × (next_period old now ≡ ok p) × (r ≡ started p))
    ⊎ ((e : PeriodError) × (next_period old now ≡ err e) × (r ≡ rejected e))
Reported entries none now none r = r ≡ no_period
Reported entries none now (some len) r =
    ((p : BillingPeriod) × (install_period now len ≡ ok p)
      × ((r ≡ installed p) ⊎ ((r ≡ no_period) × (max_data_accounts ≤ entries))))
    ⊎ ((e : PeriodError) × (install_period now len ≡ err e) × (r ≡ rejected e))

abbrev pub StartViews : DataState → ℕ → ℕ → Option ℕ → PeriodStarted → DataState → Type 0
StartViews s a now len r s' =
    Reported (length s.periods) (period_of s a) now len r
    × ((c : ℕ) → period_of s' c ≡ updated (period_of s) a (in_force r (period_of s a)) c)
    × (s'.usage ≡ s.usage)
    × (s'.sessions ≡ s.sessions)
    × (s'.last_resets ≡ s.last_resets)

pub updated_self {ℓ} : {B : Type ℓ} (view : ℕ → B) (a c : ℕ) → view c ≡ updated view a (view a) c
updated_self view a c = elim (Bool-cases (a == c)) [
  | inl t ↦ rw t (ap view (sym ((==_iff a c).0 t)))
  | inr t ↦ rw t
]

install_views :
    (s : DataState) (a now : ℕ) (len : Option ℕ)
    → period_of s a ≡ none
    → let (r, s') = install s a now len in StartViews s a now len r s'
unfolding install
install_views s a now none e = (rw e refl, λ c. updated_self (period_of s) a c, refl, refl, refl)
install_views s a now (some len) e = elim (Result-cases (install_period now len)) [
  | inr (x, q) ↦
      rw (q, install)
        (rw e (inr (x, q, refl)), λ c. updated_self (period_of s) a c, refl, refl, refl)
  | inl (p, q) ↦ elim (set_period_views s a p) [
    | inl (res, view, us, ss, ls) ↦
        rw (q, install, res) (rw e (inl (p, q, inl refl)), view, us, ss, ls)
    | inr (res, same, full) ↦
        rw (q, install, res, same)
          (
            rw e (inl (p, q, inr (refl, full))),
            λ c. updated_self (period_of s) a c,
            refl,
            refl,
            refl,
          )
  ]
]

-- Starting a period: what is reported follows from the period before, and it is what is in force
-- afterwards; no other account's period and no other table changes.
pub start_next_period_views :
    (s : DataState) (a now : ℕ) (len : Option ℕ)
    → let (r, s') = start_next_period s a now len in StartViews s a now len r s'
unfolding start_next_period
start_next_period_views s a now len = elim (Option-cases (at period_key a s.periods)) [
  | inl e ↦ rw (e, start_next_period) (install_views s a now len (unfold period_of in rw e))
  | inr (u, e) ↦
      let before : period_of s a ≡ some u.period = unfold period_of in rw e in
      elim (Result-cases (next_period u.period now)) [
        | inl (p, q) ↦
            rw (e, start_next_period, q, before)
              (
                inl (p, q, refl),
                λ c.
                    unfold period_of in
                    viewed-update_first period_key (Option.map (λ e. e.period)) _ a c s.periods u
                      (λ x. refl) e,
                refl,
                refl,
                refl,
              )
        | inr (x, q) ↦
            rw (e, start_next_period, q)
              (rw before (inr (x, q, refl)), λ c. updated_self (period_of s) a c, refl, refl, refl)
      ]
]

pub period_of-periods :
    (s t : DataState) (c : ℕ) → s.periods ≡ t.periods → period_of s c ≡ period_of t c
unfolding period_of
period_of-periods s t c e = rw e

usage_of-usage : (s t : DataState) (c : ℕ) → s.usage ≡ t.usage → usage_of s c ≡ usage_of t c
unfolding usage_of
usage_of-usage s t c e = rw e

last_reset_tick-last_resets :
    (s t : DataState) (c : ℕ)
    → s.last_resets ≡ t.last_resets
    → last_reset_tick s c ≡ last_reset_tick t c
unfolding last_reset_tick
last_reset_tick-last_resets s t c e = rw e

pub record_reset_frames :
    (s : DataState) (a now : ℕ)
    → let s' = (record_reset s a now).1 in
      (s'.usage ≡ s.usage) × (s'.sessions ≡ s.sessions) × (s'.periods ≡ s.periods)
record_reset_frames s a now = elim (record_reset_views s a now) [
  | inl h ↦ (h.2, h.3, h.4)
  | inr h ↦ (
    ap (λ (t : DataState). t.usage) h.1,
    ap (λ (t : DataState). t.sessions) h.1,
    ap (λ (t : DataState). t.periods) h.1,
  )
]

abbrev LastReset : DataState → ℕ → ℕ → (ℕ → Option ℕ) → Type 0
LastReset s a now before =
    let (res, s') = record_reset s a now in
    ((res ≡ ok tt) × ((c : ℕ) → last_reset_tick s' c ≡ updated before a (some now) c))
    ⊎ ((res ≡ err table_full) × ((c : ℕ) → last_reset_tick s' c ≡ before c))

LastReset-of : (s : DataState) (a now : ℕ) → LastReset s a now (last_reset_tick s)
LastReset-of s a now = elim (record_reset_views s a now) [
  | inl h ↦ inl (h.0, h.1)
  | inr h ↦ inr (h.0, λ c. ap (λ (t : DataState). last_reset_tick t c) h.1)
]

-- A reset zeroes the account's counter, starts its next period as reported, and records its tick
-- unless that table is full; no other account's counter, period or last reset changes, and no session.
pub reset_usage_and_period_views :
    (s : DataState) (a now : ℕ) (len : Option ℕ)
    → let (out, s') = reset_usage_and_period s a now len in
      (out.0 ≡ usage_of s a)
      × (out.1 ≡ Policy.reset_usage)
      × Reported (length s.periods) (period_of s a) now len out.2
      × ((c : ℕ) → usage_of s' c ≡ updated (usage_of s) a Policy.reset_usage c)
      × ((c : ℕ) → period_of s' c ≡ updated (period_of s) a (in_force out.2 (period_of s a)) c)
      × (((out.3 ≡ ok tt)
            × ((c : ℕ) → last_reset_tick s' c ≡ updated (last_reset_tick s) a (some now) c))
          ⊎ ((out.3 ≡ err table_full) × ((c : ℕ) → last_reset_tick s' c ≡ last_reset_tick s c)))
      × (s'.sessions ≡ s.sessions)
unfolding reset_usage_and_period
reset_usage_and_period_views s a now len =
    let s1 = (clear_usage s a).1 in
    let s2 = (start_next_period s1 a now len).1 in
    let r = (start_next_period s1 a now len).0 in
    let s3 = (record_reset s2 a now).1 in
    let (counts, us, ss, ps, ls) = clear_usage_views s a in
    let (rep, per, us2, ss2, ls2) = start_next_period_views s1 a now len in
    let (us3, ss3, ps3) = record_reset_frames s2 a now in
    let periods : period_of s1 ≡ period_of s = fun_ext λ c. period_of-periods s1 s c ps in
    let lasts : last_reset_tick s2 ≡ last_reset_tick s =
      fun_ext λ c. last_reset_tick-last_resets s2 s c (ls2 ∙ ls) in
    (
      ap (λ (x : DataUsage × DataUsage). x.0) counts,
      ap (λ (x : DataUsage × DataUsage). x.1) counts,
      subst (λ n. Reported n (period_of s a) now len r) (ap length ps)
          (subst (λ v. Reported (length s1.periods) (v a) now len r) periods rep),
      λ c. usage_of-usage s3 s1 c (us3 ∙ us2) ∙ us c,
      λ c.
          period_of-periods s3 s2 c ps3
          ∙ per c
          ∙ ap (λ (v : ℕ → Option BillingPeriod). updated v a (in_force r (v a)) c) periods,
      subst (λ v. LastReset s2 a now v) lasts (LastReset-of s2 a now),
      ss3 ∙ ss2 ∙ ss,
    )

-- Advice marks a request and leaves every period as it is.
pub period_of-advise_period :
    (s : DataState) (a now c : ℕ) → period_of (advise_period s a now).1 c ≡ period_of s c
unfolding advise_period period_of
period_of-advise_period s a now c = elim (Option-cases (at period_key a s.periods)) [
  | inl e ↦ rw (e, advise_period)
  | inr (u, e) ↦
      let marked =
        viewed-update_first period_key (Option.map (λ e. e.period))
          (λ e. record e { reset_requested_since = some now }) a c s.periods u (λ x. refl) e in
      let kept : updated (viewed period_key (Option.map (λ e. e.period)) s.periods) a
            (some u.period) c
          ≡ viewed period_key (Option.map (λ e. e.period)) s.periods c =
        elim (Bool-cases (a == c)) [ inl t ↦ rw (t, ← (==_iff a c).0 t, e) | inr t ↦ rw t ] in
      elim (Bool-cases
        (is_some (period_request u.period now) && not (is_some u.reset_requested_since))) [
          | inl t ↦ rw (e, advise_period, t) (marked ∙ kept)
          | inr t ↦ rw (e, advise_period, t)
        ]
]

-- Sessions come and go without touching a period.
pub periods-decide_and_open :
    (s : DataState) (a slot profile : ℕ) (roams : Bool) (st : AccountStandingForData)
    (lc : ProfileLifecycleForData) (e : DataEntitlement)
    → (decide_and_open s a slot profile roams st lc e).1.periods ≡ s.periods
unfolding decide_and_open record_session
periods-decide_and_open s a slot profile roams st lc e = ground arith

pub periods-close_session :
    (s : DataState) (a slot profile : ℕ) → (close_session s a slot profile).1.periods ≡ s.periods
unfolding close_session
periods-close_session s a slot profile = refl

pub periods-close_sessions_for_account :
    (s : DataState) (a : ℕ) → (close_sessions_for_account s a).1.periods ≡ s.periods
unfolding close_sessions_for_account
periods-close_sessions_for_account s a = refl

pub periods-close_sessions_for_profile :
    (s : DataState) (slot profile : ℕ)
    → (close_sessions_for_profile s slot profile).1.periods ≡ s.periods
unfolding close_sessions_for_profile
periods-close_sessions_for_profile s slot profile = refl

pub periods-mark_observed :
    (s : DataState) (o : List UsageEntry) → (mark_observed s o).periods ≡ s.periods
unfolding mark_observed
periods-mark_observed s o = refl

pub periods-feed_usage :
    (s : DataState) (a bytes : ℕ) → (feed_usage s a bytes).1.periods ≡ s.periods
periods-feed_usage s a bytes = elim (feed_usage_views s a bytes) [
  | inl h ↦ h.3
  | inr h ↦ ap (λ (t : DataState). t.periods) h.1
]
