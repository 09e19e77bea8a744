-- ===== src/Mobile/Policy/Examples.antt =====
-- Runs of mobile/src/policy.rs on its demo entitlements, and the theorems at those inputs.
use runix.Base.{arith, refl, some, true, ℕ, ◌*◌, ◌↔◌, ◌≡◌}
use runix.Mobile.Policy.{
  SessionRequest, account_suspended, active, allow, allow_throttled, anomalous, cap_exceeded,
  decide, demo_capped_entitlement, deny, enabled, evaluate_session, evaluate_usage, home, replays,
  share_reached, suspended,
}
use runix.Mobile.Policy.Bands.{InBand, IsValid, evaluate_usage-InBand}
use runix.Mobile.Policy.Sessions.{
  Admissible, AtCap, BelowThrottle, Fits, InThrottle, evaluate_session_iff,
  evaluate_session_refusals, replays_iff,
}

abbrev at_usage : ℕ → SessionRequest
at_usage n = record {
  standing = active;
  lifecycle = enabled;
  entitlement = demo_capped_entitlement;
  usage = record { used_bytes = n };
  network = home;
}

abbrev gib : ℕ
gib = 1024 * 1024 * 1024

demo_decisions :
    (evaluate_session (at_usage (3 * gib)) ≡ allow)
    × (evaluate_session (at_usage (4 * gib)) ≡ allow_throttled)
    × (evaluate_session (at_usage (5 * gib)) ≡ deny cap_exceeded)
    × (replays (decide (at_usage (5 * gib))) ≡ true)
unfolding evaluate_session evaluate_usage share_reached decide
demo_decisions = (refl, refl, refl, (replays_iff (decide (at_usage (5 * gib)))).1 refl)

demo_IsValid : IsValid demo_capped_entitlement
demo_IsValid = omega arith

at_usage-Fits : Fits (at_usage (4 * gib))
at_usage-Fits = record { valid = demo_IsValid; cap_fits = omega arith; used_fits = omega arith }

evaluate_usage-InBand_example :
    ((evaluate_usage demo_capped_entitlement (record { used_bytes = 8 * gib })).band ≡ anomalous)
    ↔ InBand demo_capped_entitlement (5 * gib) (8 * gib) anomalous
evaluate_usage-InBand_example =
    evaluate_usage-InBand demo_capped_entitlement (record { used_bytes = 8 * gib }) (5 * gib)
      demo_IsValid refl (omega arith) (omega arith) anomalous

evaluate_session_iff_example :
    ((evaluate_session (at_usage (4 * gib)) ≡ allow)
      ↔ (Admissible (at_usage (4 * gib)) × BelowThrottle (some (5 * gib)) (4 * gib) 80))
    × ((evaluate_session (at_usage (4 * gib)) ≡ allow_throttled)
        ↔ (Admissible (at_usage (4 * gib)) × InThrottle (some (5 * gib)) (4 * gib) 80))
    × ((evaluate_session (at_usage (4 * gib)) ≡ deny cap_exceeded)
        ↔ (Admissible (at_usage (4 * gib)) × AtCap (some (5 * gib)) (4 * gib)))
evaluate_session_iff_example = evaluate_session_iff (at_usage (4 * gib)) at_usage-Fits

evaluate_session_refusals_example :
    (evaluate_session (at_usage gib) ≡ deny account_suspended)
    ↔ ((at_usage gib).standing ≡ suspended)
evaluate_session_refusals_example = (evaluate_session_refusals (at_usage gib)).0

replays_iff_example :
    (replays (decide (at_usage gib)) ≡ true)
    ↔ (decide (at_usage gib) ≡ decide (decide (at_usage gib)).request)
replays_iff_example = replays_iff (decide (at_usage gib))
