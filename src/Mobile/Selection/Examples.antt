-- ===== src/Mobile/Selection/Examples.antt =====
-- Choices of mobile/src/selection.rs, and the theorem at one.
use runix.Base.Membership.{In}
use runix.Base.{[], arith, false, none, refl, some, true, ℕ, ◌-◌, ◌^◌, ◌↔◌, ◌∷◌, ◌≡◌}
use runix.Mobile.Selection.{
  Candidate, NetworkId, SelectionInput, active, chosen, home_network, is_allowed, outranks,
  plan_preferred, refused, roaming_not_permitted, select_network,
}
use runix.Mobile.Selection.Best.{IsEligible}
use runix.Mobile.Selection.Choice.{IsChoice, IsProper, select_network_iff}

abbrev network : ℕ → NetworkId
network mnc = record { mcc = 262; mnc = mnc }

-- -70 dBm abroad, and -90 dBm at home.
abbrev abroad : Candidate
abroad = record { network = network 7; signal = 2 ^ 31 - 70; is_home = false }

abbrev at_home : Candidate
at_home = record { network = network 1; signal = 2 ^ 31 - 90; is_home = true }

abbrev input : SelectionInput
input = record {
  standing = active;
  allowed = network 1 ∷ network 7 ∷ [];
  preferred = none;
  roaming_allowed = true;
  candidates = abroad ∷ at_home ∷ [];
}

home_wins : select_network input ≡ chosen (network 1) home_network
unfolding select_network outranks
home_wins = refl

preferred_wins :
    select_network (record input { preferred = some (network 7) })
    ≡ chosen (network 7) plan_preferred
unfolding select_network outranks
preferred_wins = refl

no_roaming :
    select_network (record input { roaming_allowed = false; candidates = abroad ∷ [] })
    ≡ refused roaming_not_permitted
unfolding select_network outranks
no_roaming = refl

input-IsProper : IsProper input
input-IsProper = record {
  standing_active = refl;
  few = omega arith;
  few_allowed = omega arith;
  some_candidate = omega arith;
  some_network = omega arith;
}

select_network_iff_example :
    ((select_network input ≡ chosen (network 1) home_network)
      ↔ IsChoice input (network 1) home_network)
    × ((select_network input ≡ refused roaming_not_permitted) ↔ (
        ((c : Candidate) × In c input.candidates × (is_allowed input c ≡ true))
        × ((c : Candidate) → In c input.candidates → ¬ (IsEligible input c))))
select_network_iff_example = select_network_iff input (network 1) home_network input-IsProper
