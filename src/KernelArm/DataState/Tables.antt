-- ===== src/KernelArm/DataState/Tables.antt =====
-- The tables of kernel-arm/src/data_state.rs: bounded, and with one entry to an account or a session.
use runix.Mobile.Period.Defs.{BillingPeriod, install_period, next_period, period_request}
use runix.Base.{
  Bool-cases, List, Option, Option-cases, Result-cases, [], arith, false, find, inl, inr, is_some,
  leb, length, length-append, length-update_first, none, not, refl, some, update_first, ℕ, ◌&&◌,
  ◌++◌, ◌==◌, ◌∷◌, ◌≡◌, ◌≤◌,
}
use runix.Base.Keyed.{Distinct, Distinct-push, Distinct-update_first, at}
use runix.KernelArm.DataState.{
  DataSession, DataState, PeriodEntry, ResetEntry, UsageEntry, advise_period, clear_usage,
  feed_usage, install, mark_observed, max_data_accounts, max_data_sessions, observe_all,
  record_reset, reset_usage_and_period, same_session, set_period, start_next_period,
}

-- No session stands twice, whether it roams or not.
abbrev pub DistinctSessions : List DataSession → Type 0
DistinctSessions [] = Unit {0}
DistinctSessions (x ∷ xs) = (find (λ e. same_session e x) xs ≡ none) × DistinctSessions xs

-- One entry to a number, and at most as many as the table holds.
abbrev pub IsTable : {A : Type 0} → (A → ℕ) → List A → Type 0
IsTable key xs = Distinct key xs × (length xs ≤ max_data_accounts)

pub record IsValid (s : DataState) : Type 0 where
  pub usage_table : IsTable (λ e. e.account) s.usage
  pub period_table : IsTable (λ e. e.account) s.periods
  pub reset_table : IsTable (λ e. e.account) s.last_resets
  pub session_table : DistinctSessions s.sessions
  pub few_sessions : length s.sessions ≤ max_data_sessions

module _ {A : Type 0} (key : A → ℕ) where
  pub IsTable-update :
      (f : A → A) (a : ℕ) (xs : List A)
      → ((e : A) → key (f e) ≡ key e)
      → IsTable key xs
      → IsTable key (update_first (λ e. key e == a) f xs)
  IsTable-update f a xs h t = (
    Distinct-update_first key f a xs h t.0,
    rw (length-update_first (λ e. key e == a) f xs) (t.1),
  )

  pub IsTable-push :
      (a : ℕ) (e : A) (xs : List A)
      → key e ≡ a
      → at key a xs ≡ none
      → leb max_data_accounts (length xs) ≡ false
      → IsTable key xs
      → IsTable key (xs ++ e ∷ [])
  IsTable-push a e xs k n room t =
      (Distinct-push key a e xs k n t.0, ground (arith, length-append xs (e ∷ [])))

module _ (s : DataState) (v : IsValid s) where
  with_usage :
      (xs : List UsageEntry) → IsTable (λ e. e.account) xs → IsValid (record s { usage = xs })
  with_usage xs t = record {
    usage_table = t;
    period_table = v.period_table;
    reset_table = v.reset_table;
    session_table = v.session_table;
    few_sessions = v.few_sessions;
  }

  with_periods :
      (xs : List PeriodEntry) → IsTable (λ e. e.account) xs → IsValid (record s { periods = xs })
  with_periods xs t = record {
    usage_table = v.usage_table;
    period_table = t;
    reset_table = v.reset_table;
    session_table = v.session_table;
    few_sessions = v.few_sessions;
  }

  with_resets :
      (xs : List ResetEntry) → IsTable (λ e. e.account) xs → IsValid (record s { last_resets = xs })
  with_resets xs t = record {
    usage_table = v.usage_table;
    period_table = v.period_table;
    reset_table = t;
    session_table = v.session_table;
    few_sessions = v.few_sessions;
  }

  pub with_sessions :
      (xs : List DataSession)
      → DistinctSessions xs
      → length xs ≤ max_data_sessions
      → IsValid (record s { sessions = xs })
  with_sessions xs d n = record {
    usage_table = v.usage_table;
    period_table = v.period_table;
    reset_table = v.reset_table;
    session_table = d;
    few_sessions = n;
  }

  pub record_reset-IsValid : (a now : ℕ) → IsValid (record_reset s a now).1
  unfolding record_reset
  record_reset-IsValid a now =
      elim (Option-cases (at (λ (e : ResetEntry). e.account) a s.last_resets)) [
        | inl e ↦ elim (Bool-cases (leb max_data_accounts (length s.last_resets))) [
          | inl full ↦ rw (e, record_reset, full) v
          | inr room ↦
              rw (e, record_reset, room)
                (with_resets _
                  (IsTable-push (λ e. e.account) a _ s.last_resets refl e room v.reset_table))
        ]
        | inr (u, e) ↦
            rw (e, record_reset)
              (with_resets _
                (IsTable-update (λ e. e.account) _ a s.last_resets (λ x. refl) v.reset_table))
      ]

  pub feed_usage-IsValid : (a bytes : ℕ) → IsValid (feed_usage s a bytes).1
  unfolding feed_usage
  feed_usage-IsValid a bytes = elim (Option-cases (at (λ (e : UsageEntry). e.account) a s.usage)) [
    | inl e ↦ elim (Bool-cases (leb max_data_accounts (length s.usage))) [
      | inl full ↦ rw (e, feed_usage, full) v
      | inr room ↦
          rw (e, feed_usage, room)
            (with_usage _ (IsTable-push (λ e. e.account) a _ s.usage refl e room v.usage_table))
    ]
    | inr (u, e) ↦
        rw (e, feed_usage)
          (with_usage _ (IsTable-update (λ e. e.account) _ a s.usage (λ x. refl) v.usage_table))
  ]

  pub clear_usage-IsValid : (a : ℕ) → IsValid (clear_usage s a).1
  unfolding clear_usage
  clear_usage-IsValid a = elim (Option-cases (at (λ (e : UsageEntry). e.account) a s.usage)) [
    | inl e ↦ rw (e, clear_usage) v
    | inr (u, e) ↦
        rw (e, clear_usage)
          (with_usage _ (IsTable-update (λ e. e.account) _ a s.usage (λ x. refl) v.usage_table))
  ]

  pub set_period-IsValid : (a : ℕ) (p : BillingPeriod) → IsValid (set_period s a p).1
  unfolding set_period
  set_period-IsValid a p = elim (Option-cases (at (λ (e : PeriodEntry). e.account) a s.periods)) [
    | inl e ↦ elim (Bool-cases (leb max_data_accounts (length s.periods))) [
      | inl full ↦ rw (e, set_period, full) v
      | inr room ↦
          rw (e, set_period, room)
            (with_periods _
              (IsTable-push (λ e. e.account) a _ s.periods refl e room v.period_table))
    ]
    | inr (u, e) ↦
        rw (e, set_period)
          (with_periods _
            (IsTable-update (λ e. e.account) _ a s.periods (λ x. refl) v.period_table))
  ]

  pub advise_period-IsValid : (a now : ℕ) → IsValid (advise_period s a now).1
  unfolding advise_period
  advise_period-IsValid a now =
      elim (Option-cases (at (λ (e : PeriodEntry). e.account) a s.periods)) [
        | inl e ↦ rw (e, advise_period) v
        | inr (u, e) ↦
            elim (Bool-cases
              (is_some (period_request u.period now) && not (is_some u.reset_requested_since))) [
                | inl f ↦
                    rw (e, advise_period, f)
                      (with_periods _
                        (IsTable-update (λ e. e.account) _ a s.periods (λ x. refl) v.period_table))
                | inr f ↦ rw (e, advise_period, f) v
              ]
      ]

  install-IsValid : (a now : ℕ) (len : Option ℕ) → IsValid (install s a now len).1
  unfolding install
  install-IsValid a now none = v
  install-IsValid a now (some len) = elim (Result-cases (install_period now len)) [
    | inl (p, e) ↦ rw (e, install) (set_period-IsValid a p)
    | inr (x, e) ↦ rw (e, install) v
  ]

  pub start_next_period-IsValid :
      (a now : ℕ) (len : Option ℕ) → IsValid (start_next_period s a now len).1
  unfolding start_next_period
  start_next_period-IsValid a now len =
      elim (Option-cases (at (λ (e : PeriodEntry). e.account) a s.periods)) [
        | inl e ↦ rw (e, start_next_period) (install-IsValid a now len)
        | inr (u, e) ↦ elim (Result-cases (next_period u.period now)) [
          | inl (p, f) ↦
              rw (e, start_next_period, f)
                (with_periods _
                  (IsTable-update (λ e. e.account) _ a s.periods (λ x. refl) v.period_table))
          | inr (x, f) ↦ rw (e, start_next_period, f) v
        ]
      ]

pub reset_usage_and_period-IsValid :
    (s : DataState) (a now : ℕ) (len : Option ℕ)
    → IsValid s
    → IsValid (reset_usage_and_period s a now len).1
unfolding reset_usage_and_period
reset_usage_and_period-IsValid s a now len v =
    record_reset-IsValid _ (start_next_period-IsValid _ (clear_usage-IsValid s v a) a now len) a now

observe_all-IsTable :
    (os : List UsageEntry) (xs : List UsageEntry)
    → IsTable (λ e. e.account) xs
    → IsTable (λ e. e.account) (observe_all os xs)
unfolding observe_all
observe_all-IsTable [] xs t = t
observe_all-IsTable (o ∷ os) xs t =
    observe_all-IsTable os _ (IsTable-update (λ e. e.account) _ o.account xs (λ x. refl) t)

pub mark_observed-IsValid :
    (s : DataState) (os : List UsageEntry) → IsValid s → IsValid (mark_observed s os)
unfolding mark_observed
mark_observed-IsValid s os v = with_usage s v _ (observe_all-IsTable os s.usage v.usage_table)
