-- ===== src/KernelArm/AuditChain.antt =====
-- kernel-arm/src/audit_chain.rs: the bounded audit log, on the evidence log of citadel-integration. The
-- array of counters is a function of the class; a method returns its outcome and the state after it.
pub mod Books
pub mod History
mod Examples
use runix.Base.{
  Bool, Bytes, List, Option, [], false, if◌then◌else◌, keep, leb, length, ltb, sat_add, sat_mul,
  some, suc, true, zero, ℕ, ◌&&◌, ◌++◌, ◌+◌, ◌==◌, ◌∷◌,
}
use runix.CitadelIntegration.WormLog.{WormLog, bytes_of, record_lifecycle_transition, verify_chain}
use runix.Base.Texts.{decimal, is_char_boundary}
use runix.CitadelIntegration.WormLog as WormLog

pub data AuditClass : Type 0 where
  applied data_activity gate_blocked gate_fail_closed : AuditClass
  cap_denial_esim cap_denial_mvno cap_denial_data rejected incident clean_pass : AuditClass

abbrev pub all_classes : List AuditClass
all_classes =
    applied ∷ data_activity ∷ gate_blocked ∷ gate_fail_closed ∷ cap_denial_esim ∷ cap_denial_mvno
    ∷ cap_denial_data ∷ rejected ∷ incident ∷ clean_pass ∷ []

abbrev pub index : AuditClass → ℕ
index applied = 0
index data_activity = 1
index gate_blocked = 2
index gate_fail_closed = 3
index cap_denial_esim = 4
index cap_denial_mvno = 5
index cap_denial_data = 6
index rejected = 7
index incident = 8
index clean_pass = 9

-- `QUOTAS`
abbrev pub quotas : List ℕ
quotas = 128 ∷ 64 ∷ 24 ∷ 24 ∷ 16 ∷ 16 ∷ 16 ∷ 48 ∷ 32 ∷ 8 ∷ []

-- The element of an array; every index used is below its length.
abbrev pub nth : List ℕ → ℕ → ℕ
nth [] i = 0
nth (x ∷ xs) zero = x
nth (x ∷ xs) (suc i) = nth xs i

-- `AuditClass::quota`
abbrev pub quota : AuditClass → ℕ
quota class = nth quotas (index class)

abbrev pub max_summary_commits : ℕ
max_summary_commits = 8

abbrev pub summary_growth : ℕ
summary_growth = 4

abbrev pub reason_limit : ℕ
reason_limit = 120

-- The sum of a number for each class.
abbrev pub sum_over : (AuditClass → ℕ) → List AuditClass → ℕ
sum_over f [] = 0
sum_over f (c ∷ cs) = f c + sum_over f cs

abbrev pub total_capacity : ℕ
total_capacity = sum_over (λ c. quota c + max_summary_commits) all_classes

-- `AuditClass::name`
abbrev pub name : AuditClass → Bytes
-- "applied"
name applied = 97 ∷ 112 ∷ 112 ∷ 108 ∷ 105 ∷ 101 ∷ 100 ∷ []
-- "data-activity"
name data_activity = 100 ∷ 97 ∷ 116 ∷ 97 ∷ 45 ∷ 97 ∷ 99 ∷ 116 ∷ 105 ∷ 118 ∷ 105 ∷ 116 ∷ 121 ∷ []
-- "gate-blocked"
name gate_blocked = 103 ∷ 97 ∷ 116 ∷ 101 ∷ 45 ∷ 98 ∷ 108 ∷ 111 ∷ 99 ∷ 107 ∷ 101 ∷ 100 ∷ []
-- "gate-fail-closed"
name gate_fail_closed =
    103 ∷ 97 ∷ 116 ∷ 101 ∷ 45 ∷ 102 ∷ 97 ∷ 105 ∷ 108 ∷ 45 ∷ 99 ∷ 108 ∷ 111 ∷ 115 ∷ 101 ∷ 100 ∷ []
-- "cap-denial.esim"
name cap_denial_esim =
    99 ∷ 97 ∷ 112 ∷ 45 ∷ 100 ∷ 101 ∷ 110 ∷ 105 ∷ 97 ∷ 108 ∷ 46 ∷ 101 ∷ 115 ∷ 105 ∷ 109 ∷ []
-- "cap-denial.mvno"
name cap_denial_mvno =
    99 ∷ 97 ∷ 112 ∷ 45 ∷ 100 ∷ 101 ∷ 110 ∷ 105 ∷ 97 ∷ 108 ∷ 46 ∷ 109 ∷ 118 ∷ 110 ∷ 111 ∷ []
-- "cap-denial.data"
name cap_denial_data =
    99 ∷ 97 ∷ 112 ∷ 45 ∷ 100 ∷ 101 ∷ 110 ∷ 105 ∷ 97 ∷ 108 ∷ 46 ∷ 100 ∷ 97 ∷ 116 ∷ 97 ∷ []
-- "rejected"
name rejected = 114 ∷ 101 ∷ 106 ∷ 101 ∷ 99 ∷ 116 ∷ 101 ∷ 100 ∷ []
-- "incident"
name incident = 105 ∷ 110 ∷ 99 ∷ 105 ∷ 100 ∷ 101 ∷ 110 ∷ 116 ∷ []
-- "clean-pass"
name clean_pass = 99 ∷ 108 ∷ 101 ∷ 97 ∷ 110 ∷ 45 ∷ 112 ∷ 97 ∷ 115 ∷ 115 ∷ []

-- "audit:summary:"
abbrev pub summary_subject_prefix : Bytes
summary_subject_prefix =
    97 ∷ 117 ∷ 100 ∷ 105 ∷ 116 ∷ 58 ∷ 115 ∷ 117 ∷ 109 ∷ 109 ∷ 97 ∷ 114 ∷ 121 ∷ 58 ∷ []

-- "class "
abbrev class_text : Bytes
class_text = 99 ∷ 108 ∷ 97 ∷ 115 ∷ 115 ∷ 32 ∷ []

-- " coalesced "
abbrev coalesced_text : Bytes
coalesced_text = 32 ∷ 99 ∷ 111 ∷ 97 ∷ 108 ∷ 101 ∷ 115 ∷ 99 ∷ 101 ∷ 100 ∷ 32 ∷ []

-- " event(s), not individually recorded (quota "
abbrev events_text : Bytes
events_text =
    32 ∷ 101 ∷ 118 ∷ 101 ∷ 110 ∷ 116 ∷ 40 ∷ 115 ∷ 41 ∷ 44 ∷ 32 ∷ 110 ∷ 111 ∷ 116 ∷ 32 ∷ 105 ∷ 110
    ∷ 100 ∷ 105 ∷ 118 ∷ 105 ∷ 100 ∷ 117 ∷ 97 ∷ 108 ∷ 108 ∷ 121 ∷ 32 ∷ 114 ∷ 101 ∷ 99 ∷ 111 ∷ 114
    ∷ 100 ∷ 101 ∷ 100 ∷ 32 ∷ 40 ∷ 113 ∷ 117 ∷ 111 ∷ 116 ∷ 97 ∷ 32 ∷ []

-- ", recorded "
abbrev recorded_text : Bytes
recorded_text = 44 ∷ 32 ∷ 114 ∷ 101 ∷ 99 ∷ 111 ∷ 114 ∷ 100 ∷ 101 ∷ 100 ∷ 32 ∷ []

-- "); last: "
abbrev last_text : Bytes
last_text = 41 ∷ 59 ∷ 32 ∷ 108 ∷ 97 ∷ 115 ∷ 116 ∷ 58 ∷ 32 ∷ []

-- "individual entries"
abbrev individual_text : Bytes
individual_text =
    105 ∷ 110 ∷ 100 ∷ 105 ∷ 118 ∷ 105 ∷ 100 ∷ 117 ∷ 97 ∷ 108 ∷ 32 ∷ 101 ∷ 110 ∷ 116 ∷ 114 ∷ 105
    ∷ 101 ∷ 115 ∷ []

-- "coalesced ("
abbrev count_text : Bytes
count_text = 99 ∷ 111 ∷ 97 ∷ 108 ∷ 101 ∷ 115 ∷ 99 ∷ 101 ∷ 100 ∷ 32 ∷ 40 ∷ []

pub data AuditOutcome : Type 0 where
  recorded_entry : AuditClass → AuditOutcome
  coalesced : AuditClass → ℕ → Bool → Bytes → AuditOutcome

pub record ClassState : Type 0 where
  pub recorded : ℕ
  pub dropped : ℕ
  pub summaries : ℕ
  pub next_commit_at : ℕ
  pub last_reason : Bytes

pub record ClassStats : Type 0 where
  pub class : AuditClass
  pub quota : ℕ
  pub recorded : ℕ
  pub dropped : ℕ
  pub summaries : ℕ
  pub last_reason : Bytes

abbrev pub new_class : ClassState
new_class = record {
  recorded = 0;
  dropped = 0;
  summaries = 0;
  next_commit_at = 1;
  last_reason = [];
}

pub record BoundedAudit : Type 0 where
  pub log : WormLog.WormLog
  pub classes : AuditClass → ClassState

abbrev pub new_audit : BoundedAudit
new_audit = record { log = WormLog.new; classes = λ c. new_class }

-- `classes[i] = st`
abbrev pub with_class :
    (AuditClass → ClassState) → AuditClass → ClassState → AuditClass → ClassState
with_class classes class st c = if index c == index class then st else classes c

first_bytes : ℕ → Bytes → Bytes
first_bytes zero s = []
first_bytes (suc n) [] = []
first_bytes (suc n) (b ∷ bs) = b ∷ first_bytes n bs

-- The loop of `truncate`: the last boundary at or before the end.
boundary : Bytes → ℕ → ℕ
unfolding is_char_boundary
boundary s zero = 0
boundary s (suc end) =
    let before = boundary s end in if is_char_boundary s (suc end) then suc end else before

truncate : Bytes → ℕ → Bytes
unfolding boundary first_bytes
truncate s limit =
    if leb (length s) limit then s else first_bytes (boundary s limit) s ++ (46 ∷ 46 ∷ 46 ∷ [])

-- The subject of the summaries of a class.
abbrev pub summary_subject : AuditClass → Bytes
summary_subject class = summary_subject_prefix ++ name class

summary_text : AuditClass → ClassState → Bytes
summary_text class st =
    class_text
    ++ name class
    ++ coalesced_text
    ++ decimal st.dropped
    ++ events_text
    ++ decimal (quota class)
    ++ recorded_text
    ++ decimal st.recorded
    ++ last_text
    ++ st.last_reason

-- "<subject> [<from> -> <to>]", and ": <reason>" if there is one.
event_text : Bytes → Bytes → Bytes → Option Bytes → Bytes
event_text subject from to reason =
    subject
    ++ (32 ∷ 91 ∷ [])
    ++ from
    ++ (32 ∷ 45 ∷ 62 ∷ 32 ∷ [])
    ++ to
    ++ (93 ∷ [])
    ++ bytes_of (λ r. 58 ∷ 32 ∷ r) reason

-- `s.starts_with(prefix)`
pub starts_with : Bytes → Bytes → Bool
starts_with s [] = true
starts_with [] (p ∷ ps) = false
starts_with (b ∷ bs) (p ∷ ps) = (b == p) && starts_with bs ps

-- The class's counters once an event is counted.
counted : ClassState → Bytes → ClassState
unfolding truncate
counted st reason = record st {
  dropped = sat_add st.dropped 1;
  last_reason = truncate reason reason_limit;
}

-- The class's counters once a summary is committed.
committed : ClassState → ClassState
committed st = record st {
  summaries = st.summaries + 1;
  next_commit_at = sat_mul st.next_commit_at summary_growth;
}

-- Whether a summary is due.
summary_due : ClassState → Bool
summary_due st = ltb st.summaries max_summary_commits && leb st.next_commit_at st.dropped

module _ (sha256 : Bytes → Bytes) where
  pub coalesce : BoundedAudit → AuditClass → Bytes → AuditOutcome × BoundedAudit
  unfolding counted committed summary_due
  coalesce a class reason =
      let st = counted (a.classes class) reason in
      let due = summary_due st in
      (
        coalesced class st.dropped due st.last_reason,
        record {
          log =
              if due
              then record_lifecycle_transition sha256 a.log (summary_subject class) individual_text
                  (count_text ++ decimal st.dropped ++ 41 ∷ []) false (some (summary_text class st))
              else a.log;
          classes = with_class a.classes class (if due then committed st else st);
        },
      )

  pub record_event :
      BoundedAudit
      → AuditClass
      → Bytes
      → Bytes
      → Bytes
      → Bool
      → Option Bytes
      → AuditOutcome × BoundedAudit
  unfolding coalesce event_text
  record_event a class subject from to authorized reason =
      if ltb (a.classes class).recorded (quota class) && ltb (length a.log.entries) total_capacity
      then (
        recorded_entry class,
        record {
          log = record_lifecycle_transition sha256 a.log subject from to authorized reason;
          classes =
              with_class a.classes class
                (record (a.classes class) { recorded = (a.classes class).recorded + 1 });
        },
      )
      else coalesce a class (event_text subject from to reason)

  pub note_coalesced : BoundedAudit → AuditClass → Bytes → AuditOutcome × BoundedAudit
  unfolding coalesce
  note_coalesced a class reason = coalesce a class reason

  -- No class over its quota or its number of summaries.
  within_bounds : BoundedAudit → List AuditClass → Bool
  within_bounds a [] = true
  within_bounds a (c ∷ cs) =
      leb (a.classes c).recorded (quota c)
      && leb (a.classes c).summaries max_summary_commits
      && within_bounds a cs

  pub verify : BoundedAudit → Bool
  unfolding within_bounds starts_with
  verify a =
      verify_chain sha256 a.log
      && within_bounds a all_classes
      && length a.log.entries
        == sum_over (λ c. (a.classes c).recorded + (a.classes c).summaries) all_classes
      && leb (length a.log.entries) total_capacity
      && length (keep (λ e. starts_with e.module_id summary_subject_prefix) a.log.entries)
        == sum_over (λ c. (a.classes c).summaries) all_classes

pub len : BoundedAudit → ℕ
len a = length a.log.entries

pub stats : BoundedAudit → AuditClass → ClassStats
stats a class =
    let st = a.classes class in
    record {
      class = class;
      quota = quota class;
      recorded = st.recorded;
      dropped = st.dropped;
      summaries = st.summaries;
      last_reason = st.last_reason;
    }

-- The fold over the classes, each sum saturating.
pub total_dropped : BoundedAudit → List AuditClass → ℕ → ℕ
total_dropped a [] sum = sum
total_dropped a (c ∷ cs) sum = total_dropped a cs (sat_add sum (a.classes c).dropped)
