-- ===== src/Mobile/Selection.antt =====
-- mobile/src/selection.rs: the choice of a network among the candidates that a modem reports. A signal
-- (`i32`, in dBm) is kept as its value plus 2 ^ 31, which keeps the order, and nothing else is asked of it.
pub mod Order
pub mod Best
pub mod Choice
mod Examples
use runix.Base.{
  Bool, List, Option, [], any, false, if◌then◌else◌, length, ltb, none, not, some, true, ℕ, ◌&&◌,
  ◌==◌, ◌||◌, ◌∷◌,
}

abbrev pub max_candidates : ℕ
max_candidates = 32

abbrev pub max_allowed_networks : ℕ
max_allowed_networks = 64

pub record NetworkId : Type 0 where
  pub mcc : ℕ
  pub mnc : ℕ

pub data AccountStanding : Type 0 where
  active suspended closed : AccountStanding

pub record Candidate : Type 0 where
  pub network : NetworkId
  pub signal : ℕ
  pub is_home : Bool

pub record SelectionInput : Type 0 where
  pub standing : AccountStanding
  pub allowed : List NetworkId
  pub preferred : Option NetworkId
  pub roaming_allowed : Bool
  pub candidates : List Candidate

pub data SelectionReason : Type 0 where
  plan_preferred home_network strongest_signal : SelectionReason

pub data RefusalReason : Type 0 where
  account_suspended account_closed too_many_candidates : RefusalReason
  too_many_allowed_networks no_candidates no_allowed_networks_in_plan : RefusalReason
  no_allowed_candidate roaming_not_permitted : RefusalReason

pub data Selection : Type 0 where
  chosen : NetworkId → SelectionReason → Selection
  refused : RefusalReason → Selection

abbrev pub network_eq : NetworkId → NetworkId → Bool
network_eq a b = (a.mcc == b.mcc) && (a.mnc == b.mnc)

-- The derived order of `NetworkId`.
abbrev pub network_lt : NetworkId → NetworkId → Bool
network_lt a b = if a.mcc == b.mcc then ltb a.mnc b.mnc else ltb a.mcc b.mcc

-- The tuple that `rank` makes: preferred, home, the signal, the network, which counts in reverse.
pub record Rank : Type 0 where
  pub preferred_one : Bool
  pub home_one : Bool
  pub strength : ℕ
  pub lowest : NetworkId

abbrev pub rank : Candidate → Bool → Rank
rank c is_pref = record {
  preferred_one = is_pref;
  home_one = c.is_home;
  strength = c.signal;
  lowest = c.network;
}

-- `a > b` for ranks: the first component that differs decides.
pub outranks : Rank → Rank → Bool
outranks a b =
    if a.preferred_one && not b.preferred_one
    then true
    else if b.preferred_one && not a.preferred_one
    then false
    else if a.home_one && not b.home_one
    then true
    else if b.home_one && not a.home_one
    then false
    else if a.strength == b.strength
    then network_lt a.lowest b.lowest
    else ltb b.strength a.strength

-- `input.preferred == Some(c.network)`
abbrev pub is_preferred : SelectionInput → Candidate → Bool
is_preferred input c = elim input.preferred [ none ↦ false | some n ↦ network_eq n c.network ]

-- `input.allowed.contains(&c.network)`
abbrev pub is_allowed : SelectionInput → Candidate → Bool
is_allowed input c = any (λ n. network_eq n c.network) input.allowed

-- A candidate that roaming does not rule out.
abbrev pub is_reachable : SelectionInput → Candidate → Bool
is_reachable input c = c.is_home || input.roaming_allowed

-- `better`: nothing is kept yet, or the candidate outranks what is.
abbrev pub is_better : Candidate → Bool → Option (Candidate × Bool) → Bool
is_better c is_pref none = true
is_better c is_pref (some (b, b_pref)) = outranks (rank c is_pref) (rank b b_pref)

-- What is kept after a candidate.
abbrev pub keep_better :
    SelectionInput → Option (Candidate × Bool) → Candidate → Option (Candidate × Bool)
keep_better input best c =
    if is_allowed input c && is_reachable input c && is_better c (is_preferred input c) best
    then some (c, is_preferred input c)
    else best

-- The best of the candidates, with whether it is the preferred one; `best` is that of those before.
pub best_of :
    SelectionInput → Option (Candidate × Bool) → List Candidate → Option (Candidate × Bool)
best_of input best [] = best
best_of input best (c ∷ cs) = best_of input (keep_better input best c) cs

abbrev pub reason_of : Candidate × Bool → SelectionReason
reason_of (c, is_pref) =
    if is_pref then plan_preferred else if c.is_home then home_network else strongest_signal

-- The answer to what the loop leaves: its best candidate, and whether it met an allowed one.
abbrev pub conclude : Bool → Option (Candidate × Bool) → Selection
conclude any_allowed (some (c, is_pref)) = chosen c.network (reason_of (c, is_pref))
conclude any_allowed none =
    refused (if any_allowed then roaming_not_permitted else no_allowed_candidate)

-- The choice for an active account.
abbrev pub select_active : SelectionInput → Selection
select_active input =
    if ltb max_candidates (length input.candidates)
    then refused too_many_candidates
    else if ltb max_allowed_networks (length input.allowed)
    then refused too_many_allowed_networks
    else if length input.candidates == 0
    then refused no_candidates
    else if length input.allowed == 0
    then refused no_allowed_networks_in_plan
    else conclude (any (is_allowed input) input.candidates) (best_of input none input.candidates)

pub select_network : SelectionInput → Selection
unfolding best_of
select_network input = elim input.standing [
  | active ↦ select_active input
  | suspended ↦ refused account_suspended
  | closed ↦ refused account_closed
]
