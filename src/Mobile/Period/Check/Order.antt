-- ===== src/Mobile/Period/Check/Order.antt =====
-- The result of `check_periods` is ascending and does not depend on the order of its input.
use mathlib.Core.Logic.{∥∥₁_elim}
use native.Mathlib.Nat.{ℕ_set}
use mathlib.Core.List.{Perm, Permᴰ}
use mathlib.Core.List.Perm
use runix.Base.{
  Bool, List, ap, arith, leb, length, map, none, refl, suc, true, ℕ, ℕ_discrete, ◌∙◌, ◌≡◌, ◌⊎◌,
}
use runix.Base.Sort.{TotalOrder, sort-eq_of_perm}
use runix.Mobile.Period.Check.{
  ObservedPeriod, PeriodIncident, PeriodIncidentKind, check_periods, dup_incident, dup_runs,
  duplicates, incident_le, kind_rank, lex, period_incident,
}

pub leb-TotalOrder : TotalOrder leb
leb-TotalOrder = record {
  total = λ a b. ground arith;
  trans = λ a b c h k. ground arith;
  antisym = λ a b h k. ground arith;
}

kind_rank_injective : (a b : PeriodIncidentKind) → kind_rank a ≡ kind_rank b → a ≡ b
unfolding kind_rank
kind_rank_injective a b e = ground arith

incident_eq :
    (a b : PeriodIncident)
    → kind_rank a.kind ≡ kind_rank b.kind
    → a.account ≡ b.account
    → a.expected ≡ b.expected
    → a.observed ≡ b.observed
    → a ≡ b
incident_eq a b k c e o = ground (arith, kind_rank_injective a.kind b.kind k)

lex_total :
    (a b : ℕ) (r s : Bool) → (r ≡ true) ⊎ (s ≡ true) → (lex a b r ≡ true) ⊎ (lex b a s ≡ true)
unfolding lex
lex_total a b r s h = ground arith

lex_trans :
    (a b c : ℕ) (r s t : Bool)
    → (r ≡ true → s ≡ true → t ≡ true)
    → lex a b r ≡ true
    → lex b c s ≡ true
    → lex a c t ≡ true
unfolding lex
lex_trans a b c r s t f h k = ground arith

lex_antisym :
    (a b : ℕ) (r s : Bool) → lex a b r ≡ true → lex b a s ≡ true → (a ≡ b) × (r ≡ true) × (s ≡ true)
unfolding lex
lex_antisym a b r s h k = ground arith

incident_total : (a b : PeriodIncident) → (incident_le a b ≡ true) ⊎ (incident_le b a ≡ true)
unfolding incident_le
incident_total a b = lex_total (kind_rank a.kind) (kind_rank b.kind) _ _ (
    lex_total a.account b.account _ _ (
      lex_total a.expected b.expected (leb a.observed b.observed) (leb b.observed a.observed)
        (leb-TotalOrder.total a.observed b.observed)))

incident_trans :
    (a b c : PeriodIncident)
    → incident_le a b ≡ true
    → incident_le b c ≡ true
    → incident_le a c ≡ true
unfolding incident_le
incident_trans a b c = lex_trans (kind_rank a.kind) (kind_rank b.kind) (kind_rank c.kind) _ _ _ (
    lex_trans a.account b.account c.account _ _ _ (
      lex_trans a.expected b.expected c.expected _ _ _
        (leb-TotalOrder.trans a.observed b.observed c.observed)))

incident_antisym : (a b : PeriodIncident) → incident_le a b ≡ true → incident_le b a ≡ true → a ≡ b
unfolding incident_le
incident_antisym a b h k =
    let (ek, h1, k1) = lex_antisym (kind_rank a.kind) (kind_rank b.kind) _ _ h k in
    let (ea, h2, k2) = lex_antisym a.account b.account _ _ h1 k1 in
    let (ee, h3, k3) = lex_antisym a.expected b.expected _ _ h2 k2 in
    incident_eq a b ek ea ee (leb-TotalOrder.antisym a.observed b.observed h3 k3)

incident_le-TotalOrder : TotalOrder incident_le
incident_le-TotalOrder = record {
  total = incident_total;
  trans = incident_trans;
  antisym = incident_antisym;
}

duplicates-eq_of_perm : (xs ys : List ObservedPeriod) → Perm xs ys → duplicates xs ≡ duplicates ys
unfolding duplicates
duplicates-eq_of_perm xs ys p = ap (dup_runs none) (
    sort-eq_of_perm leb leb-TotalOrder (hlevel ℕ_discrete)
      (Perm.map (λ (p : ObservedPeriod). p.account) p))

length-eq_of_permᴰ : {xs ys : List ObservedPeriod} → Permᴰ xs ys → length xs ≡ length ys
length-eq_of_permᴰ Permᴰ.nil = refl
length-eq_of_permᴰ (Permᴰ.cons e p) = ap suc (length-eq_of_permᴰ p)
length-eq_of_permᴰ (Permᴰ.swap e f) = refl
length-eq_of_permᴰ (Permᴰ.trans p q) = length-eq_of_permᴰ p ∙ length-eq_of_permᴰ q

-- The incidents that are reported do not depend on the order in which the periods are given, nor
-- does their order in the output.
pub check_periods-eq_of_perm :
    (xs ys : List ObservedPeriod) (now grace : ℕ)
    → Perm xs ys
    → check_periods xs now grace ≡ check_periods ys now grace
unfolding check_periods
check_periods-eq_of_perm xs ys now grace p =
    let lengths : length xs ≡ length ys = ∥∥₁_elim p (ℕ_set _ _) length-eq_of_permᴰ in
    let found = sort-eq_of_perm incident_le incident_le-TotalOrder (hlevel ℕ_discrete) (
      Perm.append_left (map (λ d. dup_incident d.0 d.1) (duplicates ys))
        (Perm.filter_map (period_incident (duplicates ys) now grace) p)) in
    rw (lengths, duplicates-eq_of_perm xs ys p, found)
