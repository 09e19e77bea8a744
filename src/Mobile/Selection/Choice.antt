-- ===== src/Mobile/Selection/Choice.antt =====
-- mobile/src/selection.rs: which network `select_network` chooses, and why it refuses.
use runix.Mobile.Selection.Order.{IsAbove, outranks_not}
use runix.Base.Membership.{In, any-In, any_of_In}
use runix.Base.{
  Bool, Bool-cases, Option, any, ap₂, arith, false, inl, inr, length, ltb, none, refl, some, subst,
  sym, true, ◌<◌, ◌==◌, ◌↔◌, ◌∙◌, ◌≡◌, ◌≤◌,
}
use runix.Mobile.Selection.{
  Candidate, NetworkId, Selection, SelectionInput, SelectionReason, active, best_of, chosen,
  conclude, is_allowed, is_preferred, max_allowed_networks, max_candidates, reason_of, refused,
  roaming_not_permitted, select_network,
}
use runix.Mobile.Selection.Best.{IsBest, IsEligible, best_alike, loop-IsBest, rank_of}

-- An active account, and candidates and networks of its plan within their bounds, neither without any.
pub record IsProper (input : SelectionInput) : Type 0 where
  pub standing_active : input.standing ≡ active
  pub few : length input.candidates ≤ max_candidates
  pub few_allowed : length input.allowed ≤ max_allowed_networks
  pub some_candidate : 0 < length input.candidates
  pub some_network : 0 < length input.allowed

-- An eligible candidate, above whose rank no eligible one stands, has this network and this reason.
abbrev pub IsChoice : SelectionInput → NetworkId → SelectionReason → Type 0
IsChoice input n r =
    (c : Candidate) × In c input.candidates
    × IsEligible input c
    × ((d : Candidate)
        → In d input.candidates
        → IsEligible input d
        → ¬ (IsAbove (rank_of input d) (rank_of input c)))
    × (c.network ≡ n)
    × (reason_of (c, is_preferred input c) ≡ r)

abbrev pub answer_of : SelectionInput → Selection
answer_of input =
    conclude (any (is_allowed input) input.candidates) (best_of input none input.candidates)

proper_answer : (input : SelectionInput) → IsProper input → select_network input ≡ answer_of input
unfolding select_network
proper_answer input p =
    let many : ltb max_candidates (length input.candidates) ≡ false = ground (arith, p.few) in
    let wide : ltb max_allowed_networks (length input.allowed) ≡ false =
      ground (arith, p.few_allowed) in
    let there : (length input.candidates == 0) ≡ false = ground (arith, p.some_candidate) in
    let planned : (length input.allowed == 0) ≡ false = ground (arith, p.some_network) in
    rw (p.standing_active, many, wide, there, planned) refl

chosen_iff :
    (input : SelectionInput) (met : Bool) (best : Option (Candidate × Bool)) (n : NetworkId)
    (r : SelectionReason)
    → IsBest input (λ d. In d input.candidates) best
    → (conclude met best ≡ chosen n r) ↔ IsChoice input n r
chosen_iff input met none n r b =
    (λ e. absurd cc, λ (c, m, el, most, same, reason). absurd (b c m el))
chosen_iff input met (some (k, k_pref)) n r (m, el, f, most) = (
  λ e.
      let network : k.network ≡ n = ground arith in
      let reason : reason_of (k, k_pref) ≡ r = ground arith in
      (
        k,
        m,
        el,
        λ d q o. (outranks_not (rank_of input d) (rank_of input k)).0 (most d q o),
        network,
        subst (λ q. reason_of (k, q) ≡ r) f reason,
      ),
  λ (c, p, o, top, network, reason).
      let (one, two) =
        best_alike input (λ d. In d input.candidates) k c k_pref (is_preferred input c)
          (m, el, f, most)
          (p, o, refl, λ d q g. (outranks_not (rank_of input d) (rank_of input c)).1 (top d q g)) in
      ap₂ chosen (one ∙ network) (two ∙ reason),
)

roaming_iff :
    (input : SelectionInput) (met : Bool) (best : Option (Candidate × Bool))
    → IsBest input (λ d. In d input.candidates) best
    → (conclude met best ≡ refused roaming_not_permitted)
      ↔ ((met ≡ true) × ((c : Candidate) → In c input.candidates → ¬ (IsEligible input c)))
roaming_iff input met none b = elim (Bool-cases met) [
  | inl e ↦ (λ h. (e, b), λ h. ground arith)
  | inr e ↦ (λ h. absurd (ground arith), λ (h, k). absurd (ground arith))
]
roaming_iff input met (some (k, k_pref)) (m, el, f, most) =
    (λ h. absurd cc, λ (h, none_is). absurd (none_is k m el))

-- Within the bounds, for an active account: a network is chosen, for a reason, exactly when it is that of an
-- eligible candidate above whose rank no eligible one stands, and the reason is that candidate's; roaming is
-- the reason of a refusal exactly when some candidate is allowed and none of those is reachable.
pub select_network_iff :
    (input : SelectionInput) (n : NetworkId) (r : SelectionReason)
    → IsProper input
    → ((select_network input ≡ chosen n r) ↔ IsChoice input n r)
      × ((select_network input ≡ refused roaming_not_permitted) ↔ (
          ((c : Candidate) × In c input.candidates × (is_allowed input c ≡ true))
          × ((c : Candidate) → In c input.candidates → ¬ (IsEligible input c))))
select_network_iff input n r p =
    let answered = proper_answer input p in
    let best = loop-IsBest input in
    let met = any (is_allowed input) input.candidates in
    let kept = best_of input none input.candidates in
    let choice = chosen_iff input met kept n r best in
    let roams = roaming_iff input met kept best in
    (
      (λ e. choice.0 (sym answered ∙ e), λ c. answered ∙ choice.1 c),
      (
        λ e.
            let (some_met, none_is) = roams.0 (sym answered ∙ e) in
            (any-In (is_allowed input) input.candidates some_met, none_is),
        λ ((c, m, good), none_is).
            answered ∙ roams.1 (any_of_In (is_allowed input) input.candidates c m good, none_is),
      ),
    )
