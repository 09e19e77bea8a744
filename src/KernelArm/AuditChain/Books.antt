-- ===== src/KernelArm/AuditChain/Books.antt =====
-- The books of the audit log of kernel-arm/src/audit_chain.rs: what `verify` checks holds after every
-- event.
use runix.CitadelIntegration.WormLog.Chain.{
  record_lifecycle_transition-verify_chain, record_lifecycle_transition_lem,
}
use runix.Base.{
  ==-refl, ==_iff, Bool, Bool-cases, Bytes, List, Option, [], arith, false, if◌then◌else◌, inl, inr,
  keep, length, length-append, ltb, refl, true, ℕ, ◌&&◌, ◌++◌, ◌+◌, ◌<◌, ◌==◌, ◌∙◌, ◌∷◌, ◌≡◌, ◌≤◌,
}
use runix.CitadelIntegration.WormLog.{WormEntry, WormLog, record_lifecycle_transition, verify_chain}
use runix.KernelArm.AuditChain.{
  AuditClass, BoundedAudit, ClassState, all_classes, applied, cap_denial_data, cap_denial_esim,
  cap_denial_mvno, clean_pass, coalesce, committed, counted, data_activity, event_text,
  gate_blocked, gate_fail_closed, incident, index, individual_text, max_summary_commits, name, nth,
  quota, quotas, record_event, rejected, starts_with, sum_over, summary_due, summary_subject,
  summary_subject_prefix, total_capacity, with_class,
}

abbrev pub appended : BoundedAudit → AuditClass → ℕ
appended a c = (a.classes c).recorded + (a.classes c).summaries

abbrev pub is_summary : WormEntry → Bool
is_summary e = starts_with e.module_id summary_subject_prefix

pub record Books (sha256 : Bytes → Bytes) (a : BoundedAudit) : Type 0 where
  pub chain : verify_chain sha256 a.log ≡ true
  pub in_quota : (c : AuditClass) → (a.classes c).recorded ≤ quota c
  pub few_summaries : (c : AuditClass) → (a.classes c).summaries ≤ max_summary_commits
  pub all_counted : length a.log.entries ≡ sum_over (appended a) all_classes
  pub summaries_counted :
      length (keep is_summary a.log.entries) ≡ sum_over (λ c. (a.classes c).summaries) all_classes

-- A class's new counters change a sum by what they change of its term.
sum_over-with_class :
    (g : ClassState → ℕ) (classes : AuditClass → ClassState) (class : AuditClass) (st : ClassState)
    → sum_over (λ c. g (with_class classes class st c)) all_classes + g (classes class)
      ≡ sum_over (λ c. g (classes c)) all_classes + g st
sum_over-with_class g classes applied st = omega arith
sum_over-with_class g classes data_activity st = omega arith
sum_over-with_class g classes gate_blocked st = omega arith
sum_over-with_class g classes gate_fail_closed st = omega arith
sum_over-with_class g classes cap_denial_esim st = omega arith
sum_over-with_class g classes cap_denial_mvno st = omega arith
sum_over-with_class g classes cap_denial_data st = omega arith
sum_over-with_class g classes rejected st = omega arith
sum_over-with_class g classes incident st = omega arith
sum_over-with_class g classes clean_pass st = omega arith

sum_over-le :
    (f g : AuditClass → ℕ) (cs : List AuditClass)
    → ((c : AuditClass) → f c ≤ g c)
    → sum_over f cs ≤ sum_over g cs
sum_over-le f g [] h = omega arith
sum_over-le f g (c ∷ cs) h = omega (arith, h c, sum_over-le f g cs h)

-- A bound on the counters of each class, kept by new counters within it.
with_class_bound :
    (g : ClassState → ℕ) (bound : ℕ → ℕ) (classes : AuditClass → ClassState) (class : AuditClass)
    (st : ClassState)
    → ((c : AuditClass) → g (classes c) ≤ bound (index c))
    → g st ≤ bound (index class)
    → (c : AuditClass) → g (with_class classes class st c) ≤ bound (index c)
with_class_bound g bound classes class st h k c = elim (Bool-cases (index c == index class)) [
  | inl t ↦ rw (t, (==_iff (index c) (index class)).0 t) k
  | inr t ↦ rw t (h c)
]

module _ (sha256 : Bytes → Bytes) where
  -- New counters for one class, with the log that goes with them.
  Books-step :
      (a : BoundedAudit) (class : AuditClass) (st : ClassState) (log : WormLog)
      → Books sha256 a
      → verify_chain sha256 log ≡ true
      → st.recorded ≤ quota class
      → st.summaries ≤ max_summary_commits
      → length log.entries + appended a class ≡ length a.log.entries + (st.recorded + st.summaries)
      → length (keep is_summary log.entries) + (a.classes class).summaries
        ≡ length (keep is_summary a.log.entries) + st.summaries
      → Books sha256 (record { log = log; classes = with_class a.classes class st })
  Books-step a class st log b v r f n k = record {
    chain = v;
    in_quota = with_class_bound (λ s. s.recorded) (nth quotas) a.classes class st b.in_quota r;
    few_summaries =
        with_class_bound (λ s. s.summaries) (λ i. max_summary_commits) a.classes class st
          b.few_summaries f;
    all_counted = omega (
      arith,
      n,
      b.all_counted,
      sum_over-with_class (λ s. s.recorded + s.summaries) a.classes class st,
    );
    summaries_counted =
        omega (
          arith,
          k,
          b.summaries_counted,
          sum_over-with_class (λ s. s.summaries) a.classes class st,
        );
  }

  -- While a class has quota left, the whole log has room.
  pub Books-room :
      (a : BoundedAudit) (class : AuditClass)
      → Books sha256 a
      → (a.classes class).recorded < quota class
      → length a.log.entries < total_capacity
  Books-room a class b q =
      let more : ClassState = record (a.classes class) {
        recorded = (a.classes class).recorded + 1;
      } in
      let fits : (a.classes class).recorded + 1 ≤ nth quotas (index class) = omega arith in
      let next = with_class a.classes class more in
      let sums = sum_over-with_class (λ s. s.recorded + s.summaries) a.classes class more in
      let bound =
        sum_over-le (λ c. (next c).recorded + (next c).summaries)
          (λ c. quota c + max_summary_commits) all_classes
          (λ c. omega (
            arith,
            with_class_bound (λ s. s.recorded) (nth quotas) a.classes class more b.in_quota fits c,
            with_class_bound (λ s. s.summaries) (λ i. max_summary_commits) a.classes class more
                b.few_summaries (b.few_summaries class) c,
          )) in
      omega (arith, b.all_counted, sums, bound)

  pub starts_with-append : (p s : Bytes) → starts_with (p ++ s) p ≡ true
  unfolding starts_with
  starts_with-append [] s = refl
  starts_with-append (b ∷ p) s = ground (arith, ==-refl b, starts_with-append p s)

  length-keep_push :
      (p : WormEntry → Bool) (xs : List WormEntry) (e : WormEntry)
      → length (keep p (xs ++ e ∷ [])) ≡ length (keep p xs) + (if p e then 1 else 0)
  length-keep_push p [] e = ground arith
  length-keep_push p (x ∷ xs) e = ground (arith, length-keep_push p xs e)

  -- The log after one more lifecycle transition.
  transition_sizes :
      (log : WormLog) (subject from to : Bytes) (au : Bool) (r : Option Bytes)
      → let log' = record_lifecycle_transition sha256 log subject from to au r in
        (length log'.entries ≡ length log.entries + 1)
        × (length (keep is_summary log'.entries)
            ≡ length (keep is_summary log.entries)
              + (if starts_with subject summary_subject_prefix then 1 else 0))
  transition_sizes log subject from to au r =
      let (e, pushed, same, verdict, why) =
        record_lifecycle_transition_lem sha256 log subject from to au r in
      rw pushed (
        length-append log.entries (e ∷ []),
        rw (length-keep_push is_summary log.entries e, same) refl,
      )

  committed-Books :
      (a : BoundedAudit) (class : AuditClass) (st : ClassState) (from to : Bytes) (r : Option Bytes)
      → st.recorded ≡ (a.classes class).recorded
      → st.summaries ≡ (a.classes class).summaries
      → summary_due st ≡ true
      → Books sha256 a
      → Books sha256 (record {
        log = record_lifecycle_transition sha256 a.log (summary_subject class) from to false r;
        classes = with_class a.classes class (committed st);
      })
  unfolding summary_due committed
  committed-Books a class st from to r same_recorded same_summaries due b =
      let (size, sums) = transition_sizes a.log (summary_subject class) from to false r in
      let one_more : length (
            keep is_summary
              (record_lifecycle_transition sha256 a.log (summary_subject class) from to false
                r).entries)
          ≡ length (keep is_summary a.log.entries) + 1 =
        sums ∙ rw (starts_with-append summary_subject_prefix (name class)) refl in
      Books-step a class (committed st) _ b
        (record_lifecycle_transition-verify_chain sha256 a.log (summary_subject class) from to false
          r b.chain)
        (omega (arith, b.in_quota class)) (ground arith) (omega (arith, size))
        (omega (arith, one_more))

  pub coalesce-Books :
      (a : BoundedAudit) (class : AuditClass) (reason : Bytes)
      → Books sha256 a
      → Books sha256 (coalesce sha256 a class reason).1
  unfolding coalesce counted
  coalesce-Books a class reason b =
      elim (Bool-cases (summary_due (counted (a.classes class) reason))) [
        | inl t ↦
            rw (coalesce, t)
              (committed-Books a class (counted (a.classes class) reason) individual_text _ _ refl
                refl t b)
        | inr f ↦
            rw (coalesce, f)
              (Books-step a class (counted (a.classes class) reason) a.log b b.chain
                (b.in_quota class) (b.few_summaries class) (omega arith) (omega arith))
      ]

  pub record_event-Books :
      (a : BoundedAudit) (class : AuditClass) (subject from to : Bytes) (au : Bool)
      (r : Option Bytes)
      → starts_with subject summary_subject_prefix ≡ false
      → Books sha256 a
      → Books sha256 (record_event sha256 a class subject from to au r).1
  unfolding record_event
  record_event-Books a class subject from to au r plain b =
      elim (Bool-cases (
        ltb (a.classes class).recorded (quota class)
        && ltb (length a.log.entries) total_capacity)) [
          | inl t ↦
              let (size, sums) = transition_sizes a.log subject from to au r in
              rw (record_event, t)
                (Books-step a class
                  (record (a.classes class) { recorded = (a.classes class).recorded + 1 }) _ b
                  (record_lifecycle_transition-verify_chain sha256 a.log subject from to au r
                    b.chain)
                  (ground arith) (b.few_summaries class) (omega (arith, size))
                  (rw sums (rw plain (omega arith))))
          | inr f ↦ rw (record_event, f) (coalesce-Books a class (event_text subject from to r) b)
        ]

  pub Books-fits : (a : BoundedAudit) → Books sha256 a → length a.log.entries ≤ total_capacity
  Books-fits a b = omega (
    arith,
    b.all_counted,
    sum_over-le (appended a) (λ c. quota c + max_summary_commits) all_classes
        (λ c. omega (arith, b.in_quota c, b.few_summaries c)),
  )
