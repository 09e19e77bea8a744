-- ===== src/KernelArm/DataState.antt =====
-- kernel-arm/src/data_state.rs: usage counters, data sessions, billing periods and last resets, one
-- table each. A method returns its result and the state after it.
pub mod Views
pub mod Tables
pub mod Marks
pub mod Sessions
mod Examples
use mathlib.Core.Option
use runix.Mobile.Period.Check.{ObservedPeriod}
use runix.Base.{
  Bool, List, Option, Result, [], err, find, if◌then◌else◌, is_some, keep, leb, length, map, none,
  not, ok, some, update_first, ℕ, ◌&&◌, ◌++◌, ◌==◌, ◌∷◌,
}
use runix.Mobile.Policy.{
  AccountStandingForData, DataEntitlement, DataUsage, PolicyDecisionRecord, ProfileLifecycleForData,
  SessionDecision, SessionRequest, UsageAssessment, allow, allow_throttled, apply_usage, decide,
  deny, evaluate_usage, home, roaming,
}
use runix.Mobile.Policy as Policy
use runix.Mobile.Period.Defs.{
  BillingPeriod, PeriodAssessment, PeriodError, PeriodRequest, assess_period, install_period,
  next_period, period_request,
}

abbrev pub max_data_accounts : ℕ
max_data_accounts = 16

abbrev pub max_data_sessions : ℕ
max_data_sessions = 16

pub data TableFull : Type 0 where
  table_full : TableFull

pub record UsageEntry : Type 0 where
  pub account : ℕ
  pub usage : DataUsage
  pub last_used : Option ℕ

pub record DataSession : Type 0 where
  pub account : ℕ
  pub slot : ℕ
  pub profile : ℕ
  pub roams : Bool

pub record PeriodEntry : Type 0 where
  pub account : ℕ
  pub period : BillingPeriod
  pub reset_requested_since : Option ℕ

pub record ResetEntry : Type 0 where
  pub account : ℕ
  pub last_reset_tick : ℕ

pub record PeriodAdvice : Type 0 where
  pub assessment : PeriodAssessment
  pub request : Option PeriodRequest
  pub first_request : Bool

pub data PeriodStarted : Type 0 where
  no_period : PeriodStarted
  started installed : BillingPeriod → PeriodStarted
  rejected : PeriodError → PeriodStarted

pub data SessionRecorded : Type 0 where
  not_recorded opened refreshed sessions_full : SessionRecorded

pub record OpenOutcome : Type 0 where
  pub decision_record : PolicyDecisionRecord
  pub recorded : SessionRecorded

pub record DataState : Type 0 where
  pub usage : List UsageEntry
  pub sessions : List DataSession
  pub periods : List PeriodEntry
  pub last_resets : List ResetEntry

abbrev pub new : DataState
new = record { usage = []; sessions = []; periods = []; last_resets = [] }

abbrev pub zero_usage : DataUsage
zero_usage = record { used_bytes = 0 }

unfoldable pub last_reset_tick : DataState → ℕ → Option ℕ
last_reset_tick s account =
    Option.map (λ e. e.last_reset_tick) (find (λ e. e.account == account) s.last_resets)

unfoldable pub record_reset : DataState → ℕ → ℕ → Result TableFull (Unit {0}) × DataState
record_reset s account now =
    if is_some (find (λ e. e.account == account) s.last_resets)
    then (
      ok tt,
      record s {
        last_resets =
            update_first (λ e. e.account == account) (λ e. record e { last_reset_tick = now })
              s.last_resets;
      },
    )
    else if leb max_data_accounts (length s.last_resets)
    then (err table_full, s)
    else (
      ok tt,
      record s {
        last_resets = s.last_resets ++ record { account = account; last_reset_tick = now } ∷ [];
      },
    )

usage_or_zero : Option UsageEntry → DataUsage
usage_or_zero none = zero_usage
usage_or_zero (some e) = e.usage

pub usage_of : DataState → ℕ → DataUsage
unfolding usage_or_zero
usage_of s account = usage_or_zero (find (λ e. e.account == account) s.usage)

unfoldable pub feed_usage : DataState → ℕ → ℕ → Result TableFull (DataUsage × DataUsage) × DataState
feed_usage s account bytes = elim (find (λ e. e.account == account) s.usage) [
  | some e ↦ (
    ok (e.usage, apply_usage e.usage bytes),
    record s {
      usage =
          update_first (λ e. e.account == account)
            (λ e. record e { usage = apply_usage e.usage bytes }) s.usage;
    },
  )
  | none ↦ if leb max_data_accounts (length s.usage) then (err table_full, s) else (
    ok (zero_usage, apply_usage zero_usage bytes),
    record s {
      usage =
          s.usage
          ++ record { account = account; usage = apply_usage zero_usage bytes; last_used = none }
            ∷ [];
    },
  )
]

-- `DataState::reset_usage`
unfoldable pub clear_usage : DataState → ℕ → (DataUsage × DataUsage) × DataState
clear_usage s account = elim (find (λ e. e.account == account) s.usage) [
  | some e ↦ (
    (e.usage, Policy.reset_usage),
    record s {
      usage =
          update_first (λ e. e.account == account)
            (λ e. record e { usage = Policy.reset_usage; last_used = none }) s.usage;
    },
  )
  | none ↦ ((zero_usage, Policy.reset_usage), s)
]

pub set_period : DataState → ℕ → BillingPeriod → Result TableFull (Unit {0}) × DataState
set_period s account period =
    if is_some (find (λ e. e.account == account) s.periods)
    then (
      ok tt,
      record s {
        periods =
            update_first (λ e. e.account == account)
              (λ e. record e { period = period; reset_requested_since = none }) s.periods;
      },
    )
    else if leb max_data_accounts (length s.periods)
    then (err table_full, s)
    else (
      ok tt,
      record s {
        periods =
            s.periods
            ++ record { account = account; period = period; reset_requested_since = none } ∷ [];
      },
    )

unfoldable pub period_of : DataState → ℕ → Option BillingPeriod
period_of s account = Option.map (λ e. e.period) (find (λ e. e.account == account) s.periods)

unfoldable pub advise_period : DataState → ℕ → ℕ → Option PeriodAdvice × DataState
advise_period s account now = elim (find (λ e. e.account == account) s.periods) [
  | none ↦ (none, s)
  | some e ↦
      let request = period_request e.period now in
      let first = is_some request && not (is_some e.reset_requested_since) in
      (
        some (record {
          assessment = assess_period e.period now;
          request = request;
          first_request = first;
        }),
        if first
            then record s {
              periods =
                  update_first (λ e. e.account == account)
                    (λ e. record e { reset_requested_since = some now }) s.periods;
            }
            else s,
      )
]

-- An account that has no period: one is installed, if a length is given.
install : DataState → ℕ → ℕ → Option ℕ → PeriodStarted × DataState
unfolding set_period
install s account now none = (no_period, s)
install s account now (some len) = elim (install_period now len) [
  | err e ↦ (rejected e, s)
  | ok p ↦
      let (res, s') = set_period s account p in
      (elim res [ ok _ ↦ installed p | err _ ↦ no_period ], s')
]

unfoldable pub start_next_period : DataState → ℕ → ℕ → Option ℕ → PeriodStarted × DataState
unfolding install
start_next_period s account now install_len = elim (find (λ e. e.account == account) s.periods) [
  | none ↦ install s account now install_len
  | some e ↦ elim (next_period e.period now) [
    | ok following ↦ (
      started following,
      record s {
        periods =
            update_first (λ e. e.account == account)
              (λ e. record e { period = following; reset_requested_since = none }) s.periods;
      },
    )
    | err x ↦ (rejected x, s)
  ]
]

unfoldable pub reset_usage_and_period :
    DataState
    → ℕ
    → ℕ
    → Option ℕ
    → (DataUsage × DataUsage × PeriodStarted × Result TableFull (Unit {0})) × DataState
reset_usage_and_period s account now install_len =
    let (counts, s1) = clear_usage s account in
    let (begun, s2) = start_next_period s1 account now install_len in
    let (recorded, s3) = record_reset s2 account now in ((counts.0, counts.1, begun, recorded), s3)

pub period_snapshot : DataState → List ObservedPeriod
period_snapshot s =
    map
      (λ e. record {
        account = e.account;
        period = e.period;
        reset_requested_since = e.reset_requested_since;
      })
      s.periods

pub same_session : DataSession → DataSession → Bool
same_session e s = e.account == s.account && e.slot == s.slot && e.profile == s.profile

pub record_session : DataState → DataSession → SessionRecorded × DataState
unfolding same_session
record_session s session =
    if is_some (find (λ e. same_session e session) s.sessions)
    then (
      refreshed,
      record s {
        sessions =
            update_first (λ e. same_session e session) (λ e. record e { roams = session.roams })
              s.sessions;
      },
    )
    else if leb max_data_sessions (length s.sessions)
    then (sessions_full, s)
    else (opened, record s { sessions = s.sessions ++ session ∷ [] })

-- A denial records no session.
record_if : SessionDecision → DataState → DataSession → SessionRecorded × DataState
unfolding record_session
record_if (deny reason) s session = (not_recorded, s)
record_if allow s session = record_session s session
record_if allow_throttled s session = record_session s session

session_request :
    DataState
    → ℕ
    → Bool
    → AccountStandingForData
    → ProfileLifecycleForData
    → DataEntitlement
    → SessionRequest
session_request s account roams standing lifecycle entitlement = record {
  standing = standing;
  lifecycle = lifecycle;
  entitlement = entitlement;
  usage = usage_of s account;
  network = if roams then roaming else home;
}

pub decide_and_open :
    DataState
    → ℕ
    → ℕ
    → ℕ
    → Bool
    → AccountStandingForData
    → ProfileLifecycleForData
    → DataEntitlement
    → OpenOutcome × DataState
unfolding record_if session_request
decide_and_open s account slot profile roams standing lifecycle entitlement =
    let decided = decide (session_request s account roams standing lifecycle entitlement) in
    let (recorded, s') =
      record_if decided.decision s
        (record { account = account; slot = slot; profile = profile; roams = roams }) in
    (record { decision_record = decided; recorded = recorded }, s')

-- `retain(|e| !(..))`, and whether anything went.
pub close_session : DataState → ℕ → ℕ → ℕ → Bool × DataState
close_session s account slot profile =
    let kept =
      keep (λ e. not (e.account == account && e.slot == slot && e.profile == profile)) s.sessions in
    (not (length kept == length s.sessions), record s { sessions = kept })

-- The loop that splits the sessions, in their order.
split : (DataSession → Bool) → List DataSession → List DataSession × List DataSession
split matches [] = ([], [])
split matches (e ∷ rest) =
    let (removed, kept) = split matches rest in
    if matches e then (e ∷ removed, kept) else (removed, e ∷ kept)

drain_sessions : DataState → (DataSession → Bool) → List DataSession × DataState
unfolding split
drain_sessions s matches =
    let (removed, kept) = split matches s.sessions in (removed, record s { sessions = kept })

pub close_sessions_for_account : DataState → ℕ → List DataSession × DataState
unfolding drain_sessions
close_sessions_for_account s account = drain_sessions s (λ e. e.account == account)

pub close_sessions_for_profile : DataState → ℕ → ℕ → List DataSession × DataState
unfolding drain_sessions
close_sessions_for_profile s slot profile =
    drain_sessions s (λ e. e.slot == slot && e.profile == profile)

pub snapshot : DataState → List UsageEntry × List DataSession
snapshot s = (s.usage, s.sessions)

observe_all : List UsageEntry → List UsageEntry → List UsageEntry
observe_all [] usage = usage
observe_all (o ∷ rest) usage = observe_all rest (
    update_first (λ e. e.account == o.account)
      (λ e. record e { last_used = some o.usage.used_bytes }) usage)

pub mark_observed : DataState → List UsageEntry → DataState
unfolding observe_all
mark_observed s observed = record s { usage = observe_all observed s.usage }

pub assess : DataState → ℕ → DataEntitlement → UsageAssessment
assess s account entitlement = evaluate_usage entitlement (usage_of s account)
