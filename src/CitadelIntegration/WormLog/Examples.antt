-- ===== src/CitadelIntegration/WormLog/Examples.antt =====
-- Runs of the evidence log of citadel-integration/src/lib.rs, and the theorems at those inputs.
use runix.Base.{Bytes, List, [], false, length, map, none, refl, some, true, ◌∷◌, ◌≡◌, ◌⊎◌}
use runix.CitadelIntegration.WormLog.{
  WormEntry, WormLog, compute_hash, hashed, hashed_entry, last_hash, new, next_entry, push_entry,
  record_lifecycle_transition, record_shadow_marshal_evaluation, refuse, transition_reason,
  verify_chain, verify_from, zeros,
}
use runix.CitadelIntegration.WormLog.Chain.{
  NumberedFrom, Recording, lifecycle, recorded, recorded_all, recorded_all-Sound, shadow,
}
use runix.CitadelIntegration.WormLog.Tamper.{
  Collision, verify_chain-commits, verify_chain-missing_reason,
}

-- A digest for the runs: the length of the input, in 32 bytes.
abbrev toy_digest : Bytes → Bytes
toy_digest m = length m ∷ zeros 31

abbrev two_recordings : List Recording
two_recordings =
    lifecycle (115 ∷ 105 ∷ 109 ∷ []) (111 ∷ 102 ∷ 102 ∷ []) (111 ∷ 110 ∷ []) true none
    ∷ shadow (104 ∷ []) (49 ∷ []) refuse
    ∷ []

abbrev two_entries : WormLog
two_entries = recorded_all toy_digest new two_recordings

-- The lifecycle entry has 58 bytes to hash: 32, 8, 3, 2, 1, 11 of the reason, and 1.
first_hash :
    last_hash
      (zeros 32)
      (record_lifecycle_transition toy_digest new
        (115 ∷ 105 ∷ 109 ∷ [])
        (111 ∷ 102 ∷ 102 ∷ [])
        (111 ∷ 110 ∷ [])
        true
        none).entries
    ≡ 58 ∷ zeros 31
unfolding record_lifecycle_transition push_entry next_entry compute_hash hashed transition_reason
first_hash = refl

two_entries-Sound :
    NumberedFrom 0 two_entries.entries × (verify_chain toy_digest two_entries ≡ true)
two_entries-Sound =
    recorded_all-Sound toy_digest new two_recordings (tt, unfold verify_chain verify_from in refl)

recorded_all-Sound_example :
    NumberedFrom 0 two_entries.entries × (verify_chain toy_digest two_entries ≡ true)
recorded_all-Sound_example =
    recorded_all-Sound toy_digest new two_recordings (tt, unfold verify_chain verify_from in refl)

-- The log after other events of the same size, which the length cannot tell apart.
abbrev other_recordings : List Recording
other_recordings =
    lifecycle (115 ∷ 105 ∷ 109 ∷ []) (111 ∷ 102 ∷ 102 ∷ []) (111 ∷ 107 ∷ []) false none
    ∷ shadow (104 ∷ []) (49 ∷ []) refuse
    ∷ []

abbrev other_entries : WormLog
other_entries = recorded_all toy_digest new other_recordings

other_entries-Sound :
    NumberedFrom 0 other_entries.entries × (verify_chain toy_digest other_entries ≡ true)
other_entries-Sound =
    recorded_all-Sound toy_digest new other_recordings (tt, unfold verify_chain verify_from in refl)

verify_chain-commits_example :
    Collision toy_digest two_entries.entries other_entries.entries
    ⊎ (map hashed_entry two_entries.entries ≡ map hashed_entry other_entries.entries)
unfolding recorded_all recorded record_lifecycle_transition record_shadow_marshal_evaluation
    push_entry next_entry compute_hash hashed transition_reason
verify_chain-commits_example =
    verify_chain-commits toy_digest two_entries other_entries (λ m. refl) refl two_entries-Sound.1
      other_entries-Sound.1 refl

abbrev refused : WormEntry
refused = record {
  seq = 0;
  module_id = 104 ∷ [];
  instance_id = none;
  tier = none;
  authorized = false;
  reason = none;
  shadow_marshal = none;
  prev_hash = zeros 32;
  entry_hash = 45 ∷ zeros 31;
}

verify_chain-missing_reason_example :
    verify_chain toy_digest (record { entries = record refused { reason = some [] } ∷ [] })
    ≡ verify_chain toy_digest (record { entries = refused ∷ [] })
verify_chain-missing_reason_example = verify_chain-missing_reason toy_digest [] [] refused refl
