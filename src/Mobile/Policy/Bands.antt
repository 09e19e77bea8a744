-- ===== src/Mobile/Policy/Bands.antt =====
-- The bands of mobile/src/policy.rs against exact arithmetic.
use runix.Base.{
  Bool, Option, Option-cases, arith, inl, inr, none, ok, some, subst, true, u64_max, ℕ, ◌*◌, ◌<◌,
  ◌↔◌, ◌≡◌, ◌≤◌, ◌⊎◌,
}
use runix.Mobile.Policy.{
  DataEntitlement, DataUsage, UsageBand, anomalous, apply_usage, cap_reached, evaluate_usage,
  max_escalate_percent, new_entitlement, normal, share_reached, throttled,
}

-- What the constructor guarantees of the percentages.
pub record IsValid (e : DataEntitlement) : Type 0 where
  pub throttle_le : e.throttle_at_percent ≤ 100
  pub escalate_ge : 100 ≤ e.escalate_at_percent
  pub escalate_le : e.escalate_at_percent ≤ max_escalate_percent

-- An accepted entitlement has its percentages in range and the fields that were given; anything
-- else is refused.
pub new_entitlement-IsValid :
    (cap : Option ℕ) (t : ℕ) (r : Bool) (esc : ℕ) (e : DataEntitlement)
    → (new_entitlement cap t r esc ≡ ok e) ↔ (
        IsValid e
        × (e.cap_bytes ≡ cap)
        × (e.throttle_at_percent ≡ t)
        × (e.roaming_data_allowed ≡ r)
        × (e.escalate_at_percent ≡ esc))
unfolding new_entitlement
new_entitlement-IsValid cap t r esc e = ground arith

mul_fits : (c p : ℕ) → c ≤ u64_max → p ≤ 10_000 → c * p ≤ u64_max * 10_000
mul_fits c p h k = grind arith

pub share_reached_iff :
    (used cap percent : ℕ)
    → used ≤ u64_max
    → cap ≤ u64_max
    → percent ≤ 10_000
    → (share_reached used cap percent ≡ true) ↔ (cap * percent ≤ used * 100)
unfolding share_reached
share_reached_iff used cap percent hu hc hp = ground (arith, mul_fits cap percent hc hp)

abbrev pub CapFits : Option ℕ → Type 0
CapFits none = Unit {0}
CapFits (some cap) = cap ≤ u64_max

-- The band that the percentages name, with no regard to machine words.
abbrev pub InBand : DataEntitlement → ℕ → ℕ → UsageBand → Type 0
InBand e cap used normal = (0 < cap) × (used < cap) × (used * 100 < cap * e.throttle_at_percent)
InBand e cap used throttled = (0 < cap) × (used < cap) × (cap * e.throttle_at_percent ≤ used * 100)
InBand e cap used cap_reached =
    (cap ≤ used) × ((cap ≡ 0) ⊎ (used * 100 < cap * e.escalate_at_percent))
InBand e cap used anomalous = (0 < cap) × (cap ≤ used) × (cap * e.escalate_at_percent ≤ used * 100)

module _ (e : DataEntitlement) (usage : DataUsage) (cap : ℕ) (valid : IsValid e)
    (capped : e.cap_bytes ≡ some cap) (cap_fits : cap ≤ u64_max)
    (used_fits : usage.used_bytes ≤ u64_max) where
  pub mul_ge : 100 * cap ≤ cap * e.escalate_at_percent
  mul_ge = grind arith

  band_sound : InBand e cap usage.used_bytes (evaluate_usage e usage).band
  unfolding evaluate_usage
  band_sound =
      rw (capped, evaluate_usage)
        (ground (
          arith,
          share_reached_iff usage.used_bytes cap e.escalate_at_percent,
          share_reached_iff usage.used_bytes cap e.throttle_at_percent,
          mul_ge,
        ))

  -- The intervals are disjoint.
  InBand-unique : (used : ℕ) (a b : UsageBand) → InBand e cap used a → InBand e cap used b → a ≡ b
  InBand-unique used a b h k = ground (arith, mul_ge)

  -- For a valid capped entitlement and words that fit, the usage is put in a band exactly when it
  -- lies in that band's interval.
  pub evaluate_usage-InBand :
      (b : UsageBand) → ((evaluate_usage e usage).band ≡ b) ↔ InBand e cap usage.used_bytes b
  evaluate_usage-InBand b =
      (λ h. subst (InBand e cap usage.used_bytes) h band_sound, InBand-unique _ _ b band_sound)

abbrev pub severity : UsageBand → ℕ
severity normal = 0
severity throttled = 1
severity cap_reached = 2
severity anomalous = 3

InBand-mono :
    (e : DataEntitlement) (cap used more : ℕ) (a b : UsageBand)
    → used ≤ more
    → 100 * cap ≤ cap * e.escalate_at_percent
    → InBand e cap used a
    → InBand e cap more b
    → severity a ≤ severity b
InBand-mono e cap used more a b h m p q = ground arith

-- Feeding usage to a valid entitlement never moves the account to a milder band.
pub severity-apply_usage :
    (e : DataEntitlement) (usage : DataUsage) (bytes : ℕ)
    → IsValid e
    → CapFits e.cap_bytes
    → usage.used_bytes ≤ u64_max
    → severity (evaluate_usage e usage).band
      ≤ severity (evaluate_usage e (apply_usage usage bytes)).band
unfolding apply_usage
severity-apply_usage e usage bytes v c h = elim (Option-cases e.cap_bytes) [
  | inl none_e ↦ unfold evaluate_usage in rw none_e (omega arith)
  | inr (cap, some_e) ↦
      let fits : cap ≤ u64_max = subst CapFits some_e c in
      InBand-mono e cap usage.used_bytes (apply_usage usage bytes).used_bytes _ _ (omega arith)
        (mul_ge e usage cap v some_e fits h) (band_sound e usage cap v some_e fits h)
        (band_sound e (apply_usage usage bytes) cap v some_e fits (omega arith))
]
