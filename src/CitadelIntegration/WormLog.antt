-- ===== src/CitadelIntegration/WormLog.antt =====
-- citadel-integration/src/lib.rs: `WormEntry` and `WormLog`, the hash-chained evidence log. SHA-256 is
-- a parameter, from bytes to bytes; a string is its list of bytes.
pub mod Chain
pub mod Tamper
mod Examples
use runix.Base.{
  Bool, Bytes, List, Option, [], bytes_eq, false, if◌then◌else◌, is_some, le_bytes, length, none,
  some, suc, true, zero, ℕ, ◌&&◌, ◌++◌, ◌∷◌,
}

pub data SandboxTier : Type 0 where
  t1_critical t2_trusted t3_untrusted : SandboxTier

pub data ShadowMarshalOutcome : Type 0 where
  execute refuse hard_stop unreachable faulty : ShadowMarshalOutcome

pub record WormEntry : Type 0 where
  pub seq : ℕ
  pub module_id : Bytes
  pub instance_id : Option Bytes
  pub tier : Option SandboxTier
  pub authorized : Bool
  pub reason : Option Bytes
  pub shadow_marshal : Option ShadowMarshalOutcome
  pub prev_hash : Bytes
  pub entry_hash : Bytes

pub record WormLog : Type 0 where
  pub entries : List WormEntry

abbrev pub new : WormLog
new = record { entries = [] }

-- `[0u8; n]`
abbrev pub zeros : ℕ → Bytes
zeros zero = []
zeros (suc n) = 0 ∷ zeros n

-- `SandboxTier::as_str`: "t1", "t2", "t3".
abbrev pub tier_str : SandboxTier → Bytes
tier_str t1_critical = 116 ∷ 49 ∷ []
tier_str t2_trusted = 116 ∷ 50 ∷ []
tier_str t3_untrusted = 116 ∷ 51 ∷ []

-- `ShadowMarshalOutcome::as_str`: "execute", "refuse", "hard_stop", "unreachable", "faulty".
abbrev pub outcome_str : ShadowMarshalOutcome → Bytes
outcome_str execute = 101 ∷ 120 ∷ 101 ∷ 99 ∷ 117 ∷ 116 ∷ 101 ∷ []
outcome_str refuse = 114 ∷ 101 ∷ 102 ∷ 117 ∷ 115 ∷ 101 ∷ []
outcome_str hard_stop = 104 ∷ 97 ∷ 114 ∷ 100 ∷ 95 ∷ 115 ∷ 116 ∷ 111 ∷ 112 ∷ []
outcome_str unreachable = 117 ∷ 110 ∷ 114 ∷ 101 ∷ 97 ∷ 99 ∷ 104 ∷ 97 ∷ 98 ∷ 108 ∷ 101 ∷ []
outcome_str faulty = 102 ∷ 97 ∷ 117 ∷ 108 ∷ 116 ∷ 121 ∷ []

abbrev pub flag : Bool → Bytes
flag b = (if b then 1 else 0) ∷ []

-- The bytes of a value that may be missing.
abbrev pub bytes_of : {A : Type 0} → (A → Bytes) → Option A → Bytes
bytes_of str none = []
bytes_of str (some a) = str a

-- The bytes that `compute_hash` feeds to the hasher, in its order.
pub hashed :
    Bytes
    → ℕ
    → Bytes
    → Option Bytes
    → Option SandboxTier
    → Bool
    → Option Bytes
    → Option ShadowMarshalOutcome
    → Bytes
hashed prev_hash seq module_id instance_id tier authorized reason shadow_marshal =
    prev_hash
    ++ le_bytes 8 seq
    ++ module_id
    ++ flag (is_some instance_id)
    ++ bytes_of (λ s. s) instance_id
    ++ flag (is_some tier)
    ++ bytes_of tier_str tier
    ++ flag authorized
    ++ bytes_of (λ s. s) reason
    ++ flag (is_some shadow_marshal)
    ++ bytes_of outcome_str shadow_marshal

pub hashed_entry : WormEntry → Bytes
unfolding hashed
hashed_entry e =
    hashed e.prev_hash e.seq e.module_id e.instance_id e.tier e.authorized e.reason e.shadow_marshal

-- `entries.last().map(|e| e.entry_hash)`, or the given hash.
abbrev pub last_hash : Bytes → List WormEntry → Bytes
last_hash hash [] = hash
last_hash hash (e ∷ es) = last_hash e.entry_hash es

-- "[<from> -> <to>]", after the reason and a space if there is one.
pub transition_reason : Bytes → Bytes → Option Bytes → Bytes
transition_reason from_state to_state none =
    91 ∷ from_state ++ (32 ∷ 45 ∷ 62 ∷ 32 ∷ []) ++ to_state ++ 93 ∷ []
transition_reason from_state to_state (some r) =
    r ++ (32 ∷ 91 ∷ []) ++ from_state ++ (32 ∷ 45 ∷ 62 ∷ 32 ∷ []) ++ to_state ++ 93 ∷ []

module _ (sha256 : Bytes → Bytes) where
  -- `WormEntry::compute_hash`
  pub compute_hash :
      Bytes
      → ℕ
      → Bytes
      → Option Bytes
      → Option SandboxTier
      → Bool
      → Option Bytes
      → Option ShadowMarshalOutcome
      → Bytes
  unfolding hashed
  compute_hash prev_hash seq module_id instance_id tier authorized reason shadow_marshal =
      sha256 (hashed prev_hash seq module_id instance_id tier authorized reason shadow_marshal)

  -- The entry that `WormLog::record` builds.
  pub next_entry :
      WormLog
      → Bytes
      → Option Bytes
      → Option SandboxTier
      → Bool
      → Option Bytes
      → Option ShadowMarshalOutcome
      → WormEntry
  unfolding compute_hash
  next_entry log module_id instance_id tier authorized reason shadow_marshal =
      let seq = length log.entries in
      let prev_hash = last_hash (zeros 32) log.entries in
      record {
        seq = seq;
        module_id = module_id;
        instance_id = instance_id;
        tier = tier;
        authorized = authorized;
        reason = reason;
        shadow_marshal = shadow_marshal;
        prev_hash = prev_hash;
        entry_hash =
            compute_hash prev_hash seq module_id instance_id tier authorized reason shadow_marshal;
      }

  -- `WormLog::record`
  pub push_entry :
      WormLog
      → Bytes
      → Option Bytes
      → Option SandboxTier
      → Bool
      → Option Bytes
      → Option ShadowMarshalOutcome
      → WormLog
  unfolding next_entry
  push_entry log module_id instance_id tier authorized reason shadow_marshal = record {
    entries =
        log.entries
        ++ next_entry log module_id instance_id tier authorized reason shadow_marshal ∷ [];
  }

  pub record_shadow_marshal_evaluation : WormLog → Bytes → Bytes → ShadowMarshalOutcome → WormLog
  unfolding push_entry
  record_shadow_marshal_evaluation log module_id instance_id outcome =
      push_entry log module_id (some instance_id) none false none (some outcome)

  pub record_proxy_verification : WormLog → Bytes → Bytes → Bool → Option Bytes → WormLog
  unfolding push_entry
  record_proxy_verification log module_id instance_id authorized reason =
      push_entry log module_id (some instance_id) none authorized reason none

  pub record_lifecycle_transition : WormLog → Bytes → Bytes → Bytes → Bool → Option Bytes → WormLog
  unfolding push_entry transition_reason
  record_lifecycle_transition log subject_id from_state to_state authorized reason =
      push_entry log subject_id none none authorized
        (some (transition_reason from_state to_state reason)) none

  -- The loop of `verify_chain`, from the hash before the entries.
  pub verify_from : Bytes → List WormEntry → Bool
  unfolding compute_hash
  verify_from prev_hash [] = true
  verify_from prev_hash (e ∷ es) =
      bytes_eq e.prev_hash prev_hash
      && bytes_eq
          (compute_hash e.prev_hash e.seq e.module_id e.instance_id e.tier e.authorized e.reason
            e.shadow_marshal)
          e.entry_hash
      && verify_from e.entry_hash es

  pub verify_chain : WormLog → Bool
  unfolding verify_from
  verify_chain log = verify_from (zeros 32) log.entries
