-- ===== src/Mobile/Selection/Best.antt =====
-- mobile/src/selection.rs: the candidate that the loop of `select_network` keeps.
use runix.Mobile.Selection.Order.{outranks_antisym, outranks_trans}
use runix.Base.Membership.{In}
use runix.Base.{
  Bool, Bool-cases, List, Option, [], ap, ap₂, arith, false, if◌then◌else◌, inl, inr, none, refl,
  some, subst, sym, true, ◌&&◌, ◌↔◌, ◌∙◌, ◌∷◌, ◌≡◌, ◌⊎◌,
}
use runix.Mobile.Selection.{
  Candidate, Rank, SelectionInput, best_of, home_network, is_allowed, is_preferred, is_reachable,
  keep_better, outranks, plan_preferred, rank, reason_of, strongest_signal,
}

-- A candidate that the plan allows and that roaming does not rule out.
abbrev pub IsEligible : SelectionInput → Candidate → Type 0
IsEligible input c = (is_allowed input c ≡ true) × (is_reachable input c ≡ true)

abbrev pub rank_of : SelectionInput → Candidate → Rank
rank_of input c = rank c (is_preferred input c)

-- Among the candidates of a property: none is eligible, or the one kept is, and no other that is
-- outranks it.
abbrev pub IsBest : SelectionInput → (Candidate → Type 0) → Option (Candidate × Bool) → Type 0
IsBest input P none = (d : Candidate) → P d → ¬ (IsEligible input d)
IsBest input P (some (c, is_pref)) =
    P c
    × IsEligible input c
    × (is_pref ≡ is_preferred input c)
    × ((d : Candidate)
        → P d
        → IsEligible input d
        → outranks (rank_of input d) (rank_of input c) ≡ false)

IsBest-map :
    (input : SelectionInput) (P Q : Candidate → Type 0) (best : Option (Candidate × Bool))
    → ((d : Candidate) → P d ↔ Q d)
    → IsBest input P best
    → IsBest input Q best
IsBest-map input P Q none i b = λ d q. b d ((i d).1 q)
IsBest-map input P Q (some (c, is_pref)) i (p, e, f, most) =
    ((i c).0 p, e, f, λ d q. most d ((i d).1 q))

outranks_irrefl : (a : Rank) → outranks a a ≡ false
unfolding outranks
outranks_irrefl a = ground arith

keep_better-IsBest :
    (input : SelectionInput) (P : Candidate → Type 0) (best : Option (Candidate × Bool))
    (c : Candidate)
    → IsBest input P best
    → IsBest input (λ d. P d ⊎ (d ≡ c)) (keep_better input best c)
keep_better-IsBest input P none c b =
    elim (Bool-cases (is_allowed input c && is_reachable input c && true)) [
      | inl e ↦ rw (e) (
        inr refl,
        (ground arith, ground arith),
        refl,
        λ d q el. elim q [
          | inl p ↦ absurd (b d p el)
          | inr s ↦
              subst (λ v. outranks (rank_of input v) (rank_of input c) ≡ false) (sym s)
                (outranks_irrefl (rank_of input c))
        ],
      )
      | inr e ↦ rw (e) (λ d q el. elim q [
        | inl p ↦ b d p el
        | inr s ↦ let own = subst (IsEligible input) s el in absurd (ground (arith, own.0, own.1))
      ])
    ]
keep_better-IsBest input P (some (k, k_pref)) c (p, e, f, most) =
    let better = outranks (rank c (is_preferred input c)) (rank k k_pref) in
    let same_rank : rank k k_pref ≡ rank_of input k = ap (λ q. rank k q) f in
    elim (Bool-cases (is_allowed input c && is_reachable input c && better)) [
      | inl h ↦
          let wins : outranks (rank_of input c) (rank_of input k) ≡ true =
            subst (λ r. outranks (rank_of input c) r ≡ true) same_rank (ground arith) in
          rw (h) (
            inr refl,
            (ground arith, ground arith),
            refl,
            λ d q el. elim q [
              | inl s ↦
                  outranks_trans (rank_of input d) (rank_of input k) (rank_of input c) wins
                    (most d s el)
              | inr s ↦
                  subst (λ v. outranks (rank_of input v) (rank_of input c) ≡ false) (sym s)
                    (outranks_irrefl (rank_of input c))
            ],
          )
      | inr h ↦ rw (h) (
        inl p,
        e,
        f,
        λ d q el. elim q [
          | inl s ↦ most d s el
          | inr s ↦
              let own = subst (IsEligible input) s el in
              let loses : better ≡ false = ground (arith, own.0, own.1) in
              subst (λ v. outranks (rank_of input v) (rank_of input k) ≡ false) (sym s)
                (subst (λ r. outranks (rank_of input c) r ≡ false) same_rank loses)
        ],
      )
    ]

best_of-IsBest :
    (input : SelectionInput) (P : Candidate → Type 0) (best : Option (Candidate × Bool))
    (cs : List Candidate)
    → IsBest input P best
    → IsBest input (λ d. P d ⊎ In d cs) (best_of input best cs)
unfolding best_of
best_of-IsBest input P best [] b =
    IsBest-map input P (λ d. P d ⊎ In d []) best
      (λ d. (inl, λ q. elim q [ inl p ↦ p | inr m ↦ absurd m ])) b
best_of-IsBest input P best (c ∷ cs) b =
    IsBest-map input (λ d. (P d ⊎ (d ≡ c)) ⊎ In d cs) (λ d. P d ⊎ In d (c ∷ cs))
      (best_of input (keep_better input best c) cs)
      (λ d. (
        λ q. elim q [ inl (inl p) ↦ inl p | inl (inr s) ↦ inr (inl s) | inr m ↦ inr (inr m) ],
        λ q. elim q [ inl p ↦ inl (inl p) | inr (inl s) ↦ inl (inr s) | inr (inr m) ↦ inr m ],
      ))
      (best_of-IsBest input (λ d. P d ⊎ (d ≡ c)) (keep_better input best c) cs
        (keep_better-IsBest input P best c b))

-- The loop keeps a best eligible candidate, or there is none.
pub loop-IsBest :
    (input : SelectionInput)
    → IsBest input (λ d. In d input.candidates) (best_of input none input.candidates)
loop-IsBest input =
    IsBest-map input (λ d. ⊥ ⊎ In d input.candidates) (λ d. In d input.candidates)
      (best_of input none input.candidates)
      (λ d. (λ q. elim q [ inl p ↦ absurd p | inr m ↦ m ], inr))
      (best_of-IsBest input (λ d. ⊥) none input.candidates (λ d p el. p))

-- Two candidates of which each is best are chosen alike.
pub best_alike :
    (input : SelectionInput) (P : Candidate → Type 0) (c d : Candidate) (c_pref d_pref : Bool)
    → IsBest input P (some (c, c_pref))
    → IsBest input P (some (d, d_pref))
    → (c.network ≡ d.network) × (reason_of (c, c_pref) ≡ reason_of (d, d_pref))
best_alike input P c d c_pref d_pref (p, e, f, most) (q, g, h, best) =
    let same = outranks_antisym (rank_of input c) (rank_of input d) (best c p e) (most d q g) in
    let pref : c_pref ≡ d_pref = f ∙ ap (λ (r : Rank). r.preferred_one) same ∙ sym h in
    let home : c.is_home ≡ d.is_home = ap (λ (r : Rank). r.home_one) same in
    (
      ap (λ (r : Rank). r.lowest) same,
      ap₂
          (λ (x y : Bool).
            if x then plan_preferred else if y then home_network else strongest_signal)
          pref home,
    )
