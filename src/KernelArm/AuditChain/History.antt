-- ===== src/KernelArm/AuditChain/History.antt =====
-- Histories of the audit log of kernel-arm/src/audit_chain.rs, from the empty log.
pub mod Entries
use runix.Base.{
  ==_iff, All, Bool, Bool-cases, Bytes, List, Option, [], ap, arith, false, if◌then◌else◌, inl, inr,
  keep, leb, length, le→leb, ltb, ltb→lt, lt→ltb, min, refl, suc, sym, true, zero, ℕ, ◌&&◌, ◌+◌,
  ◌==◌, ◌∙◌, ◌∷◌, ◌≡◌,
}
use runix.CitadelIntegration.WormLog.Chain.{verify_chain_nil}
use runix.KernelArm.AuditChain.{
  AuditClass, BoundedAudit, all_classes, applied, cap_denial_data, cap_denial_esim, cap_denial_mvno,
  clean_pass, coalesce, committed, counted, data_activity, event_text, gate_blocked,
  gate_fail_closed, incident, index, new_audit, note_coalesced, quota, record_event, rejected,
  starts_with, sum_over, summary_due, summary_subject_prefix, total_capacity, verify, within_bounds,
}
use runix.KernelArm.AuditChain.Books.{
  Books, Books-fits, Books-room, appended, coalesce-Books, record_event-Books,
}

-- What the callers ask for: an event to append, or one to count only.
pub data Event : Type 0 where
  event : AuditClass → Bytes → Bytes → Bytes → Bool → Option Bytes → Event
  note : AuditClass → Bytes → Event

pub after : (Bytes → Bytes) → BoundedAudit → Event → BoundedAudit
after sha256 a (event class subject from to au r) =
    (record_event sha256 a class subject from to au r).1
after sha256 a (note class reason) = (note_coalesced sha256 a class reason).1

pub after_all : (Bytes → Bytes) → BoundedAudit → List Event → BoundedAudit
after_all sha256 a [] = a
after_all sha256 a (e ∷ es) = after_all sha256 (after sha256 a e) es

-- The subject of the event is not that of a summary.
abbrev pub IsPlain : Event → Type 0
IsPlain (event class subject from to au r) = starts_with subject summary_subject_prefix ≡ false
IsPlain (note class reason) = Unit {0}

-- How many events of the class ask for an entry.
abbrev pub asked : AuditClass → List Event → ℕ
asked c [] = 0
asked c (event class subject from to au r ∷ es) =
    (if index c == index class then 1 else 0) + asked c es
asked c (note class reason ∷ es) = asked c es

-- The class in a place of a list.
abbrev class_at : List AuditClass → ℕ → AuditClass
class_at [] i = clean_pass
class_at (c ∷ cs) zero = c
class_at (c ∷ cs) (suc i) = class_at cs i

class_at-index : (c : AuditClass) → class_at all_classes (index c) ≡ c
class_at-index applied = refl
class_at-index data_activity = refl
class_at-index gate_blocked = refl
class_at-index gate_fail_closed = refl
class_at-index cap_denial_esim = refl
class_at-index cap_denial_mvno = refl
class_at-index cap_denial_data = refl
class_at-index rejected = refl
class_at-index incident = refl
class_at-index clean_pass = refl

index_inj : (c d : AuditClass) → index c ≡ index d → c ≡ d
index_inj c d e = sym (class_at-index c) ∙ ap (class_at all_classes) e ∙ class_at-index d

and_true : {p q : Bool} → p ≡ true → q ≡ true → (p && q) ≡ true
and_true h k = ground arith

module _ (sha256 : Bytes → Bytes) where
  pub after-Books :
      (a : BoundedAudit) (e : Event) → IsPlain e → Books sha256 a → Books sha256 (after sha256 a e)
  unfolding after note_coalesced
  after-Books a (event class subject from to au r) p b =
      record_event-Books sha256 a class subject from to au r p b
  after-Books a (note class reason) p b = coalesce-Books sha256 a class reason b

  after_all-Books :
      (a : BoundedAudit) (es : List Event)
      → All IsPlain es
      → Books sha256 a
      → Books sha256 (after_all sha256 a es)
  unfolding after_all
  after_all-Books a [] p b = b
  after_all-Books a (e ∷ es) p b = after_all-Books (after sha256 a e) es p.1 (after-Books a e p.0 b)

  -- The empty log.
  pub new_audit-Books : Books sha256 new_audit
  new_audit-Books = record {
    chain = verify_chain_nil sha256;
    in_quota = λ c. omega arith;
    few_summaries = λ c. omega arith;
    all_counted = refl;
    summaries_counted = refl;
  }

  within_bounds_of_Books :
      (a : BoundedAudit) (cs : List AuditClass) → Books sha256 a → within_bounds sha256 a cs ≡ true
  unfolding within_bounds
  within_bounds_of_Books a [] b = refl
  within_bounds_of_Books a (c ∷ cs) b =
      ground (arith, b.in_quota c, b.few_summaries c, within_bounds_of_Books a cs b)

  verify_of_Books : (a : BoundedAudit) → Books sha256 a → verify sha256 a ≡ true
  unfolding verify
  verify_of_Books a b =
      let n = (==_iff (length a.log.entries) (sum_over (appended a) all_classes)).1 b.all_counted in
      let k =
        (==_iff (length (keep (λ e. starts_with e.module_id summary_subject_prefix) a.log.entries))
            (sum_over (λ c. (a.classes c).summaries) all_classes)).1
          b.summaries_counted in
      let room : leb (length a.log.entries) total_capacity ≡ true =
        le→leb _ _ (Books-fits sha256 a b) in
      and_true
        (and_true (and_true (and_true b.chain (within_bounds_of_Books a all_classes b)) n) room) k

  -- After any history of events none of whose subjects is that of a summary, the log verifies: its
  -- chain, its quotas, its counters and its size.
  pub after_all-verify :
      (es : List Event) → All IsPlain es → verify sha256 (after_all sha256 new_audit es) ≡ true
  after_all-verify es p =
      verify_of_Books (after_all sha256 new_audit es)
        (after_all-Books new_audit es p new_audit-Books)

  pub recorded-coalesce :
      (a : BoundedAudit) (class c : AuditClass) (reason : Bytes)
      → ((coalesce sha256 a class reason).1.classes c).recorded ≡ (a.classes c).recorded
  unfolding coalesce counted committed
  recorded-coalesce a class c reason = elim (Bool-cases (index c == index class)) [
    | inl t ↦ elim (Bool-cases (summary_due (counted (a.classes class) reason))) [
      | inl d ↦ rw (coalesce, t, d, index_inj c class ((==_iff (index c) (index class)).0 t)) refl
      | inr d ↦ rw (coalesce, t, d, index_inj c class ((==_iff (index c) (index class)).0 t)) refl
    ]
    | inr t ↦ rw (coalesce, t) refl
  ]

  pub recorded-record_event :
      (a : BoundedAudit) (class c : AuditClass) (subject from to : Bytes) (au : Bool)
      (r : Option Bytes)
      → Books sha256 a
      → ((record_event sha256 a class subject from to au r).1.classes c).recorded
        ≡ min (quota c) ((a.classes c).recorded + (if index c == index class then 1 else 0))
  unfolding record_event
  recorded-record_event a class c subject from to au r b =
      elim (Bool-cases (ltb (a.classes class).recorded (quota class))) [
        | inl t ↦
            let room : ltb (length a.log.entries) total_capacity ≡ true =
              lt→ltb _ _ (Books-room sha256 a class b (ltb→lt _ _ t)) in
            elim (Bool-cases (index c == index class)) [
              | inl q ↦
                  let same = index_inj c class ((==_iff (index c) (index class)).0 q) in
                  rw (record_event, t, room, q, same) (ground arith)
              | inr q ↦ rw (record_event, t, room, q) (omega (arith, b.in_quota c))
            ]
        | inr f ↦
            rw (record_event, f, recorded-coalesce a class c (event_text subject from to r))
              (elim (Bool-cases (index c == index class)) [
                | inl q ↦
                    let same = index_inj c class ((==_iff (index c) (index class)).0 q) in
                    rw (q, same) (ground (arith, b.in_quota class))
                | inr q ↦ rw q (omega (arith, b.in_quota c))
              ])
      ]
