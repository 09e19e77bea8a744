-- ===== src/Mobile/Policy.antt =====
-- mobile/src/policy.rs: data entitlements, usage bands and the session decision.
pub mod Bands
pub mod Sessions
mod Examples
use runix.Base.{
  Bool, Option, Result, err, false, if◌then◌else◌, leb, ltb, none, not, ok, sat_add, sat_mul128,
  some, true, ℕ, ℕ_discrete, ◌*◌, ◌==◌,
}
use mathlib.Core.Bool.{decide as decided}

abbrev pub max_escalate_percent : ℕ
max_escalate_percent = 10_000

pub data EntitlementError : Type 0 where
  throttle_percent_above_100 escalate_percent_below_100 : EntitlementError
  escalate_percent_too_large : EntitlementError

pub record DataEntitlement : Type 0 where
  pub cap_bytes : Option ℕ
  pub throttle_at_percent : ℕ
  pub roaming_data_allowed : Bool
  pub escalate_at_percent : ℕ

-- `DataEntitlement::new`; `percent` is a u8 and `escalate` a u16.
pub new_entitlement : Option ℕ → ℕ → Bool → ℕ → Result EntitlementError DataEntitlement
new_entitlement cap percent roams escalate =
    if ltb 100 percent
    then err throttle_percent_above_100
    else if ltb escalate 100
    then err escalate_percent_below_100
    else if ltb max_escalate_percent escalate
    then err escalate_percent_too_large
    else ok (record {
      cap_bytes = cap;
      throttle_at_percent = percent;
      roaming_data_allowed = roams;
      escalate_at_percent = escalate;
    })

pub record DataUsage : Type 0 where
  pub used_bytes : ℕ

pub apply_usage : DataUsage → ℕ → DataUsage
apply_usage usage bytes = record { used_bytes = sat_add usage.used_bytes bytes }

unfoldable pub reset_usage : DataUsage
reset_usage = record { used_bytes = 0 }

pub data AccountStandingForData : Type 0 where
  active suspended closed : AccountStandingForData

pub data ProfileLifecycleForData : Type 0 where
  created disabled enabled deleted : ProfileLifecycleForData

pub data NetworkClass : Type 0 where
  home roaming : NetworkClass

pub record SessionRequest : Type 0 where
  pub standing : AccountStandingForData
  pub lifecycle : ProfileLifecycleForData
  pub entitlement : DataEntitlement
  pub usage : DataUsage
  pub network : NetworkClass

pub data DenyReason : Type 0 where
  account_suspended account_closed roaming_data_not_allowed cap_exceeded : DenyReason
  profile_not_enabled : ProfileLifecycleForData → DenyReason

pub data SessionDecision : Type 0 where
  allow allow_throttled : SessionDecision
  deny : DenyReason → SessionDecision

pub data UsageBand : Type 0 where
  normal throttled cap_reached anomalous : UsageBand

pub data ActionRequest : Type 0 where
  notify_only throttle suspend_account : ActionRequest

pub record UsageAssessment : Type 0 where
  pub band : UsageBand
  pub escalation : Option ActionRequest

-- The products are taken in u128.
pub share_reached : ℕ → ℕ → ℕ → Bool
share_reached used cap percent = leb (sat_mul128 cap percent) (sat_mul128 used 100)

-- The branch of `evaluate_usage` for an entitlement with a cap.
evaluate_capped : DataEntitlement → ℕ → ℕ → UsageAssessment
evaluate_capped e cap used =
    if cap == 0
    then record { band = cap_reached; escalation = some notify_only }
    else if share_reached used cap e.escalate_at_percent
    then record { band = anomalous; escalation = some suspend_account }
    else if leb cap used
    then record { band = cap_reached; escalation = some notify_only }
    else if share_reached used cap e.throttle_at_percent
    then record { band = throttled; escalation = some throttle }
    else record { band = normal; escalation = none }

pub evaluate_usage : DataEntitlement → DataUsage → UsageAssessment
unfolding evaluate_capped
evaluate_usage e usage = elim e.cap_bytes [
  | none ↦ record { band = normal; escalation = none }
  | some cap ↦ evaluate_capped e cap usage.used_bytes
]

-- The last step of `evaluate_session`: the band decides.
decide_band : UsageBand → SessionDecision
decide_band normal = allow
decide_band throttled = allow_throttled
decide_band cap_reached = deny cap_exceeded
decide_band anomalous = deny cap_exceeded

roaming_refused : NetworkClass → DataEntitlement → Bool
roaming_refused home e = false
roaming_refused roaming e = not e.roaming_data_allowed

decide_active : ProfileLifecycleForData → SessionRequest → SessionDecision
unfolding decide_band roaming_refused
decide_active enabled r =
    if roaming_refused r.network r.entitlement
    then deny roaming_data_not_allowed
    else decide_band (evaluate_usage r.entitlement r.usage).band
decide_active other r = deny (profile_not_enabled other)

decide_standing : AccountStandingForData → SessionRequest → SessionDecision
unfolding decide_active
decide_standing active r = decide_active r.lifecycle r
decide_standing suspended r = deny account_suspended
decide_standing closed r = deny account_closed

pub evaluate_session : SessionRequest → SessionDecision
unfolding decide_standing
evaluate_session r = decide_standing r.standing r

pub record PolicyDecisionRecord : Type 0 where
  pub request : SessionRequest
  pub decision : SessionDecision
  pub assessment : UsageAssessment

pub decide : SessionRequest → PolicyDecisionRecord
decide r = record {
  request = r;
  decision = evaluate_session r;
  assessment = evaluate_usage r.entitlement r.usage;
}

-- The derived `PartialEq` of the record.
PolicyDecisionRecord-discrete : Discrete PolicyDecisionRecord
PolicyDecisionRecord-discrete = hlevel ℕ_discrete

pub replays : PolicyDecisionRecord → Bool
unfolding PolicyDecisionRecord-discrete
replays rec = decided (PolicyDecisionRecord-discrete rec (decide rec.request))

abbrev pub demo_capped_entitlement : DataEntitlement
demo_capped_entitlement = record {
  cap_bytes = some (5 * 1024 * 1024 * 1024);
  throttle_at_percent = 80;
  roaming_data_allowed = false;
  escalate_at_percent = 150;
}

abbrev pub demo_unlimited_entitlement : DataEntitlement
demo_unlimited_entitlement = record {
  cap_bytes = none;
  throttle_at_percent = 100;
  roaming_data_allowed = true;
  escalate_at_percent = 100;
}
