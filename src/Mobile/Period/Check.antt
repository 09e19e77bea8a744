-- ===== src/Mobile/Period/Check.antt =====
-- `check_periods` of mobile/src/period.rs, the read-only check of many periods.
pub mod Order
mod Runs
pub mod Report
use mathlib.Core.List.{filter_map}
use runix.Base.{
  Bool, List, Option, [], any, false, if◌then◌else◌, leb, length, ltb, map, max, none, sat_add,
  sat_sub, some, true, ℕ, ◌++◌, ◌==◌, ◌∷◌,
}
use runix.Base.Sort.{sort}
use runix.Mobile.Period.Defs.{
  BillingPeriod, PeriodAssessment, active, assess_period, elapsed, max_periods,
}

pub record ObservedPeriod : Type 0 where
  pub account : ℕ
  pub period : BillingPeriod
  pub reset_requested_since : Option ℕ

pub data PeriodIncidentKind : Type 0 where
  too_many_periods duplicate_account clock_before_start : PeriodIncidentKind
  period_elapsed_no_reset : PeriodIncidentKind

pub record PeriodIncident : Type 0 where
  pub kind : PeriodIncidentKind
  pub account : ℕ
  pub expected : ℕ
  pub observed : ℕ

-- The derived order of the kinds is their declaration order.
kind_rank : PeriodIncidentKind → ℕ
kind_rank too_many_periods = 0
kind_rank duplicate_account = 1
kind_rank clock_before_start = 2
kind_rank period_elapsed_no_reset = 3

-- One step of a derived, lexicographic order.
lex : ℕ → ℕ → Bool → Bool
lex a b rest = if ltb a b then true else if a == b then rest else false

-- The derived `Ord` of an incident, as "at most".
incident_le : PeriodIncident → PeriodIncident → Bool
unfolding kind_rank lex
incident_le a b =
    lex (kind_rank a.kind) (kind_rank b.kind)
      (lex a.account b.account (lex a.expected b.expected (leb a.observed b.observed)))

pub dup_incident : ℕ → ℕ → PeriodIncident
dup_incident account copies = record {
  kind = duplicate_account;
  account = account;
  expected = 1;
  observed = copies;
}

-- The run-length scan over the sorted ids: `run` is the current id with the copies seen so far, and
-- a run of more than one copy is reported when it ends.
flush : ℕ → ℕ → List (ℕ × ℕ)
flush cur n = if ltb 1 n then (cur, n) ∷ [] else []

ended : Option (ℕ × ℕ) → ℕ → List (ℕ × ℕ)
unfolding flush
ended none id = []
ended (some (cur, n)) id = if cur == id then [] else flush cur n

next_run : Option (ℕ × ℕ) → ℕ → ℕ × ℕ
next_run none id = (id, 1)
next_run (some (cur, n)) id = if cur == id then (cur, sat_add n 1) else (id, 1)

-- The reported runs, with their copies.
dup_runs : Option (ℕ × ℕ) → List ℕ → List (ℕ × ℕ)
unfolding ended next_run
dup_runs none [] = []
dup_runs (some (cur, n)) [] = flush cur n
dup_runs run (id ∷ ids) = ended run id ++ dup_runs (some (next_run run id)) ids

abbrev pub accounts : List ObservedPeriod → List ℕ
accounts = map λ p. p.account

-- The copies of an account's period, by number: the sorted ids are scanned.
pub duplicates : List ObservedPeriod → List (ℕ × ℕ)
unfolding dup_runs sort
duplicates periods = dup_runs none (sort leb (accounts periods))

elapsed_incident : ObservedPeriod → ℕ → ℕ → ℕ → Option PeriodIncident
elapsed_incident p now_tick grace_ticks overdue_ticks =
    let end = sat_sub now_tick overdue_ticks in
    let since = max (elim p.reset_requested_since [ none ↦ 0 | some s ↦ s ]) end in
    let deadline = sat_add since grace_ticks in
    if ltb deadline now_tick
    then some (record {
      kind = period_elapsed_no_reset;
      account = p.account;
      expected = deadline;
      observed = now_tick;
    })
    else none

assessed_incident : ObservedPeriod → ℕ → ℕ → PeriodAssessment → Option PeriodIncident
unfolding elapsed_incident
assessed_incident p now_tick grace_ticks (active gone left) = none
assessed_incident p now_tick grace_ticks (PeriodAssessment.clock_before_start start_tick at) =
    some (record {
      kind = clock_before_start;
      account = p.account;
      expected = start_tick;
      observed = now_tick;
    })
assessed_incident p now_tick grace_ticks (elapsed overdue_ticks missed) =
    elapsed_incident p now_tick grace_ticks overdue_ticks

-- The loop body: a period whose account is a duplicate is skipped (`binary_search` over the sorted
-- ids of the duplicates).
period_incident : List (ℕ × ℕ) → ℕ → ℕ → ObservedPeriod → Option PeriodIncident
unfolding assessed_incident
period_incident dups now_tick grace_ticks p =
    if any (λ d. d.0 == p.account) dups
    then none
    else assessed_incident p now_tick grace_ticks (assess_period p.period now_tick)

too_many : ℕ → PeriodIncident
too_many n = record { kind = too_many_periods; account = 0; expected = max_periods; observed = n }

unfoldable pub check_periods : List ObservedPeriod → ℕ → ℕ → List PeriodIncident
unfolding duplicates period_incident incident_le dup_incident too_many
check_periods periods now_tick grace_ticks =
    let dups = duplicates periods in
    let found =
      map (λ d. dup_incident d.0 d.1) dups
      ++ filter_map (period_incident dups now_tick grace_ticks) periods in
    if ltb max_periods (length periods)
    then too_many (length periods) ∷ []
    else sort incident_le found
