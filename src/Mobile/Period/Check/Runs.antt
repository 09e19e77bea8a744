-- ===== src/Mobile/Period/Check/Runs.antt =====
-- The run-length scan of `check_periods` finds the accounts that occur more than once.
use mathlib.Core.Logic.Iff
use runix.Mobile.Period.Check.Order.{leb-TotalOrder}
use runix.Base.{
  ==_iff, Bool-cases, List, [], arith, if◌then◌else◌, inl, inr, leb, leb→le, length, length-map,
  none, sat_add, some, subst, suc, sym, u64_max, ℕ, ◌+◌, ◌<◌, ◌==◌, ◌↔◌, ◌∷◌, ◌≡◌, ◌≤◌, ◌⊎◌,
}
use runix.Base.Sort.{IsSorted, length-sort, sort, sort-IsSorted}
use runix.Base.Membership.{In, In-append, occurrences, occurrences-sort, occurrences_below, ⊎_iff}
use runix.Mobile.Period.Check.{ObservedPeriod, accounts, dup_runs, duplicates, flush}

flush-In : (a k c n : ℕ) → In (a, k) (flush c n) ↔ ((1 < k) × (a ≡ c) × (k ≡ n))
unfolding flush
flush-In a k c n = ground arith

-- The copies of `a` when `n` copies of `c` stand before `ids`.
abbrev copies : ℕ → ℕ → ℕ → List ℕ → ℕ
copies a c n ids = if c == a then n + occurrences a ids else occurrences a ids

same_run :
    (a k c n id : ℕ) (ids : List ℕ)
    → c ≡ id
    → n + suc (length ids) ≤ u64_max
    → ((1 < k) × (k ≡ copies a c (sat_add n 1) ids)) ↔ ((1 < k) × (k ≡ copies a c n (id ∷ ids)))
same_run a k c n id ids e h = ground arith

new_run :
    (a k c n id : ℕ) (ids : List ℕ)
    → c < id
    → (a ≡ c → occurrences a ids ≡ 0)
    → (((1 < k) × (a ≡ c) × (k ≡ n)) ⊎ ((1 < k) × (k ≡ copies a id 1 ids)))
      ↔ ((1 < k) × (k ≡ copies a c n (id ∷ ids)))
new_run a k c n id ids l z = ground arith

-- A run in progress, at `n` copies of `c`, over ids that are ascending and at least `c`.
runs-In :
    (a k c n : ℕ) (ids : List ℕ)
    → IsSorted leb (c ∷ ids)
    → n + length ids ≤ u64_max
    → 1 ≤ n
    → In (a, k) (dup_runs (some (c, n)) ids) ↔ ((1 < k) × (k ≡ copies a c n ids))
unfolding dup_runs
runs-In a k c n [] s h p = Iff.trans (flush-In a k c n) (ground arith)
runs-In a k c n (id ∷ ids) s h p = elim (Bool-cases (c == id)) [
  | inl e ↦ rw e (
      Iff.trans (runs-In a k c (sat_add n 1) ids (s.0.1, s.1.1) (omega arith) (omega arith))
        (same_run a k c n id ids ((==_iff c id).0 e) h))
  | inr e ↦
      let below : c < id = ground (arith, leb→le c id s.0.0) in
      rw e (
        Iff.trans
          (Iff.trans (In-append (a, k) (flush c n) _)
            (⊎_iff (flush-In a k c n) (runs-In a k id 1 ids s.1 (omega arith) (omega arith))))
          (new_run a k c n id ids below
            (λ q. occurrences_below a id ids s.1.0 (subst (λ z. z < id) (sym q) below))))
]

runs_start-In :
    (a k : ℕ) (ids : List ℕ)
    → IsSorted leb ids
    → length ids ≤ u64_max
    → In (a, k) (dup_runs none ids) ↔ ((1 < k) × (k ≡ occurrences a ids))
unfolding dup_runs
runs_start-In a k [] s h = (λ v. absurd v, λ q. absurd (omega arith))
runs_start-In a k (id ∷ ids) s h =
    Iff.trans (runs-In a k id 1 ids s (omega arith) (omega arith)) (ground arith)

-- The reported runs are the accounts with more than one period, each with its number of copies.
pub duplicates-In :
    (a k : ℕ) (ps : List ObservedPeriod)
    → length ps ≤ u64_max
    → In (a, k) (duplicates ps) ↔ ((1 < k) × (k ≡ occurrences a (accounts ps)))
unfolding duplicates
duplicates-In a k ps h =
    Iff.trans
      (runs_start-In a k (sort leb (accounts ps)) (sort-IsSorted leb leb-TotalOrder (accounts ps)) (
        omega (
          arith,
          length-sort leb (accounts ps),
          length-map ps (λ (p : ObservedPeriod). p.account),
        )))
      (rw (occurrences-sort a (accounts ps)) (λ q. q, λ q. q))
