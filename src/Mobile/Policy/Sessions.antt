-- ===== src/Mobile/Policy/Sessions.antt =====
-- The session decision of mobile/src/policy.rs against its written conditions.
use mathlib.Core.Bool.{decide_iff}
use runix.Base.{
  Option, arith, false, none, refl, some, true, u64_max, ℕ, ◌*◌, ◌<◌, ◌↔◌, ◌≡◌, ◌≢◌, ◌≤◌, ◌⊎◌,
}
use runix.Mobile.Policy.{
  DataEntitlement, DataUsage, PolicyDecisionRecord, PolicyDecisionRecord-discrete,
  ProfileLifecycleForData, SessionRequest, UsageBand, account_closed, account_suspended, active,
  allow, allow_throttled, anomalous, cap_exceeded, cap_reached, closed, decide, decide_band, deny,
  enabled, evaluate_session, evaluate_usage, home, normal, profile_not_enabled, replays, roaming,
  roaming_data_not_allowed, suspended, throttled,
}
use runix.Mobile.Policy.Bands.{CapFits, IsValid, evaluate_usage-InBand, mul_ge}

-- The conditions on the account, the profile and the network.
abbrev pub Admissible : SessionRequest → Type 0
Admissible r =
    (r.standing ≡ active)
    × (r.lifecycle ≡ enabled)
    × ((r.network ≡ home) ⊎ (r.entitlement.roaming_data_allowed ≡ true))

-- The usage conditions, in exact arithmetic.
abbrev pub BelowThrottle : Option ℕ → ℕ → ℕ → Type 0
BelowThrottle none used percent = Unit {0}
BelowThrottle (some cap) used percent = (used < cap) × (used * 100 < cap * percent)

abbrev pub InThrottle : Option ℕ → ℕ → ℕ → Type 0
InThrottle none used percent = ⊥
InThrottle (some cap) used percent = (used < cap) × (cap * percent ≤ used * 100)

abbrev pub AtCap : Option ℕ → ℕ → Type 0
AtCap none used = ⊥
AtCap (some cap) used = cap ≤ used

-- What the request carries is as its constructors and types guarantee.
pub record Fits (r : SessionRequest) : Type 0 where
  pub valid : IsValid r.entitlement
  pub cap_fits : CapFits r.entitlement.cap_bytes
  pub used_fits : r.usage.used_bytes ≤ u64_max

-- The shape of the decision: refusals by standing, lifecycle and network come first, then the band.
decision_by_band :
    (r : SessionRequest)
    → Admissible r
    → evaluate_session r ≡ decide_band (evaluate_usage r.entitlement r.usage).band
unfolding evaluate_session
decision_by_band r h = ground arith

decide_band_cases :
    (b : UsageBand)
    → ((decide_band b ≡ allow) ↔ (b ≡ normal))
      × ((decide_band b ≡ allow_throttled) ↔ (b ≡ throttled))
      × ((decide_band b ≡ deny cap_exceeded) ↔ ((b ≡ cap_reached) ⊎ (b ≡ anomalous)))
unfolding decide_band
decide_band_cases b = ground arith

decision_refused :
    (r : SessionRequest)
    → (evaluate_session r ≡ allow)
      ⊎ (evaluate_session r ≡ allow_throttled)
      ⊎ (evaluate_session r ≡ deny cap_exceeded)
    → Admissible r
unfolding evaluate_session
decision_refused r h = ground arith

abbrev BandConditions : DataEntitlement → DataUsage → Option ℕ → UsageBand → Type 0
BandConditions e usage cap b =
    ((b ≡ normal) ↔ BelowThrottle cap usage.used_bytes e.throttle_at_percent)
    × ((b ≡ throttled) ↔ InThrottle cap usage.used_bytes e.throttle_at_percent)
    × (((b ≡ cap_reached) ⊎ (b ≡ anomalous)) ↔ AtCap cap usage.used_bytes)

band_conditions :
    (e : DataEntitlement) (usage : DataUsage) (cap : Option ℕ)
    → e.cap_bytes ≡ cap
    → IsValid e
    → CapFits cap
    → usage.used_bytes ≤ u64_max
    → BandConditions e usage cap (evaluate_usage e usage).band
band_conditions e usage none eq v c h = unfold evaluate_usage in ground arith
band_conditions e usage (some cap) eq v c h =
    let at = evaluate_usage-InBand e usage cap v eq c h in
    ground
      (arith, mul_ge e usage cap v eq c h, at normal, at throttled, at cap_reached, at anomalous)

-- For words that fit and a valid entitlement, a session is allowed in full exactly when the account
-- is active, the profile enabled, the network home or roaming permitted, and the usage below the
-- throttle share of the cap; it is allowed throttled exactly when those hold with the usage at or
-- above that share and below the cap; and it is denied for its cap exactly when they hold with the
-- usage at or above the cap.
pub evaluate_session_iff :
    (r : SessionRequest)
    → Fits r
    → ((evaluate_session r ≡ allow) ↔ (
        Admissible r
        × BelowThrottle r.entitlement.cap_bytes r.usage.used_bytes
            r.entitlement.throttle_at_percent))
      × ((evaluate_session r ≡ allow_throttled) ↔ (
          Admissible r
          × InThrottle r.entitlement.cap_bytes r.usage.used_bytes
              r.entitlement.throttle_at_percent))
      × ((evaluate_session r ≡ deny cap_exceeded)
          ↔ (Admissible r × AtCap r.entitlement.cap_bytes r.usage.used_bytes))
evaluate_session_iff r f = ground (
  arith,
  decision_by_band r,
  decision_refused r,
  decide_band_cases (evaluate_usage r.entitlement r.usage).band,
  band_conditions r.entitlement r.usage r.entitlement.cap_bytes refl f.valid f.cap_fits f.used_fits,
)

-- The refusals for other reasons come in the order of the source: standing, lifecycle, network.
pub evaluate_session_refusals :
    (r : SessionRequest)
    → ((evaluate_session r ≡ deny account_suspended) ↔ (r.standing ≡ suspended))
      × ((evaluate_session r ≡ deny account_closed) ↔ (r.standing ≡ closed))
      × ((l : ProfileLifecycleForData)
          → (evaluate_session r ≡ deny (profile_not_enabled l))
            ↔ ((r.standing ≡ active) × (r.lifecycle ≡ l) × (l ≢ enabled)))
      × ((evaluate_session r ≡ deny roaming_data_not_allowed) ↔ (
          (r.standing ≡ active)
          × (r.lifecycle ≡ enabled)
          × (r.network ≡ roaming)
          × (r.entitlement.roaming_data_allowed ≡ false)))
unfolding evaluate_session
evaluate_session_refusals r = (ground arith, ground arith, λ l. ground arith, ground arith)

-- An audited record replays exactly when it is the one that the policy produces for its request.
pub replays_iff : (rec : PolicyDecisionRecord) → (replays rec ≡ true) ↔ (rec ≡ decide rec.request)
unfolding replays
replays_iff rec = decide_iff (PolicyDecisionRecord-discrete rec (decide rec.request))
