-- ===== src/Mobile/Period/Check/Report.antt =====
-- What `check_periods` reports, in exact arithmetic.
use mathlib.Core.Logic.Iff
use mathlib.Core.List.{filter_map}
use mathlib.Core.Bool.{false≢true}
use runix.Base.{
  ==-refl, ==_iff, All, Bool-cases, List, any, ap, arith, false, inl, inr, length, ltb, map, max,
  none, refl, some, subst, sym, true, u64_max, ℕ, ◌+◌, ◌<◌, ◌==◌, ◌↔◌, ◌∙◌, ◌≡◌, ◌≤◌, ◌⊎◌,
}
use runix.Base.Membership.{
  All-In, In, In-append, In-filter_map, In-filter_map_of_In, In-map, In-map_of_In, In-sort, any-In,
  any_of_In, occurrences, occurrences_pos, ⊎_iff,
}
use runix.Mobile.Period.Defs.{PeriodAssessment, active, assess_period, elapsed, max_periods}
use runix.Mobile.Period.Assess.{Assessed, IsPeriod, assess_period_iff}
use runix.Mobile.Period.Check.{
  ObservedPeriod, PeriodIncident, PeriodIncidentKind, accounts, assessed_incident, check_periods,
  dup_incident, duplicates, incident_le, period_elapsed_no_reset, period_incident,
}
use runix.Mobile.Period.Check.Runs.{duplicates-In}

-- The tick by which a reset should have happened: the grace runs from the end of the period, or from
-- the request for a reset if that came later.
abbrev pub due_tick : ObservedPeriod → ℕ → ℕ
due_tick p grace =
    max (elim p.reset_requested_since [ none ↦ 0 | some s ↦ s ])
      (p.period.start_tick + p.period.length_ticks)
    + grace

-- What one period on its own gives rise to.
abbrev pub Due : ObservedPeriod → ℕ → ℕ → PeriodIncident → Type 0
Due p now grace i =
    ((now < p.period.start_tick)
      × (i ≡ record {
        kind = PeriodIncidentKind.clock_before_start;
        account = p.account;
        expected = p.period.start_tick;
        observed = now;
      }))
    ⊎ ((p.period.start_tick + p.period.length_ticks ≤ now)
        × (due_tick p grace < now)
        × (i ≡ record {
          kind = period_elapsed_no_reset;
          account = p.account;
          expected = due_tick p grace;
          observed = now;
        }))

incident-Due :
    (p : ObservedPeriod) (now grace : ℕ) (i : PeriodIncident) (a : PeriodAssessment)
    → now ≤ u64_max
    → Assessed p.period now a
    → (assessed_incident p now grace a ≡ some i) ↔ Due p now grace i
unfolding assessed_incident
incident-Due p now grace i (active gone left) k s = ground arith
incident-Due p now grace i (elapsed over missed) k s = ground arith
incident-Due p now grace i (PeriodAssessment.clock_before_start start at) k s = ground arith

assessed-Due :
    (p : ObservedPeriod) (now grace : ℕ) (i : PeriodIncident)
    → IsPeriod p.period
    → now ≤ u64_max
    → (assessed_incident p now grace (assess_period p.period now) ≡ some i) ↔ Due p now grace i
assessed-Due p now grace i h k =
    incident-Due p now grace i _ k ((assess_period_iff p.period now _ h).0 refl)

-- An account is skipped exactly if its id occurs more than once.
skipped_iff :
    (a : ℕ) (ps : List ObservedPeriod)
    → length ps ≤ u64_max
    → (any (λ d. d.0 == a) (duplicates ps) ≡ true) ↔ (1 < occurrences a (accounts ps))
skipped_iff a ps h = (
  λ e.
      let (d, m, q) = any-In (λ (d : ℕ × ℕ). d.0 == a) (duplicates ps) e in
      let r = (duplicates-In d.0 d.1 ps h).0 m in
      let same : d.0 ≡ a = (==_iff d.0 a).0 q in
      subst (λ z. 1 < occurrences z (accounts ps)) same (subst (λ z. 1 < z) r.1 r.0),
  λ l.
      any_of_In (λ (d : ℕ × ℕ). d.0 == a) (duplicates ps) (a, occurrences a (accounts ps))
        ((duplicates-In a (occurrences a (accounts ps)) ps h).1 (l, refl)) (==-refl a),
)

not_twice : (n : ℕ) → 0 < n → ¬ (1 < n) → n ≡ 1
not_twice n p h = ground (arith, h)

single-Due :
    (p : ObservedPeriod) (ps : List ObservedPeriod) (now grace : ℕ) (i : PeriodIncident)
    → In p ps
    → length ps ≤ u64_max
    → IsPeriod p.period
    → now ≤ u64_max
    → (period_incident (duplicates ps) now grace p ≡ some i)
      ↔ ((occurrences p.account (accounts ps) ≡ 1) × Due p now grace i)
unfolding period_incident
single-Due p ps now grace i m h v k =
    let pos =
      occurrences_pos p.account (accounts ps)
        (In-map_of_In (λ (p : ObservedPeriod). p.account) ps p m) in
    let skip = skipped_iff p.account ps h in
    elim (Bool-cases (any (λ d. d.0 == p.account) (duplicates ps))) [
      | inl e ↦ rw (e, period_incident) (λ q. cc, λ q. absurd (omega (arith, skip.0 e)))
      | inr e ↦
          rw (e, period_incident)
            (Iff.trans (assessed-Due p now grace i v k)
              (λ d. (not_twice _ pos (λ l. false≢true (sym e ∙ skip.1 l)), d), λ q. q.1))
    ]

not_over : (n : ℕ) → n ≤ max_periods → ltb max_periods n ≡ false
not_over n h = ground arith

module _ (ps : List ObservedPeriod) where
  dup_part :
      (i : PeriodIncident)
      → length ps ≤ u64_max
      → In i (map (λ d. dup_incident d.0 d.1) (duplicates ps)) ↔ (
          (account : ℕ) × (1 < occurrences account (accounts ps))
          × (i ≡ dup_incident account (occurrences account (accounts ps))))
  dup_part i h = (
    λ m.
        let (d, k, e) = In-map (λ (d : ℕ × ℕ). dup_incident d.0 d.1) (duplicates ps) i m in
        let r = (duplicates-In d.0 d.1 ps h).0 k in
        (d.0, subst (λ z. 1 < z) r.1 r.0, e ∙ ap (dup_incident d.0) r.1),
    λ q.
        let n = occurrences q.0 (accounts ps) in
        subst (λ z. In z (map (λ d. dup_incident d.0 d.1) (duplicates ps))) (sym q.2)
          (In-map_of_In (λ (d : ℕ × ℕ). dup_incident d.0 d.1) (duplicates ps) (q.0, n)
            ((duplicates-In q.0 n ps h).1 (q.1, refl))),
  )

  single_part :
      (now grace : ℕ) (i : PeriodIncident)
      → length ps ≤ u64_max
      → All (λ p. IsPeriod p.period) ps
      → now ≤ u64_max
      → In i (filter_map (period_incident (duplicates ps) now grace) ps) ↔ (
          (p : ObservedPeriod) × In p ps
          × (occurrences p.account (accounts ps) ≡ 1)
          × Due p now grace i)
  single_part now grace i h v k = (
    λ m.
        let (p, j, e) = In-filter_map (period_incident (duplicates ps) now grace) ps i m in
        let valid = All-In (λ (p : ObservedPeriod). IsPeriod p.period) p ps v j in
        let r = (single-Due p ps now grace i j h valid k).0 e in (p, j, r.0, r.1),
    λ q.
        let valid = All-In (λ (p : ObservedPeriod). IsPeriod p.period) q.0 ps v q.1 in
        In-filter_map_of_In (period_incident (duplicates ps) now grace) ps q.0 i q.1
          ((single-Due q.0 ps now grace i q.1 h valid k).1 (q.2, q.3)),
  )

-- Every incident, and nothing else: for at most 64 periods the output holds the duplicate accounts
-- with their number of copies, and what each period of an account that occurs once gives rise to.
pub check_periods-In :
    (ps : List ObservedPeriod) (now grace : ℕ) (i : PeriodIncident)
    → length ps ≤ max_periods
    → All (λ p. IsPeriod p.period) ps
    → now ≤ u64_max
    → In i (check_periods ps now grace) ↔ (
        ((account : ℕ) × (1 < occurrences account (accounts ps))
          × (i ≡ dup_incident account (occurrences account (accounts ps))))
        ⊎ ((p : ObservedPeriod) × In p ps
            × (occurrences p.account (accounts ps) ≡ 1)
            × Due p now grace i))
unfolding check_periods
check_periods-In ps now grace i h v k =
    let fits : length ps ≤ u64_max = omega arith in
    rw (not_over (length ps) h) (
      Iff.trans (In-sort incident_le i _) (
        Iff.trans (In-append i (map (λ d. dup_incident d.0 d.1) (duplicates ps)) _)
          (⊎_iff (dup_part ps i fits) (single_part ps now grace i fits v k))))
