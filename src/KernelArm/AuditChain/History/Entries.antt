-- ===== src/KernelArm/AuditChain/History/Entries.antt =====
-- The entries of the audit log of kernel-arm/src/audit_chain.rs that are not summaries: which events they
-- stand for.
use mathlib.Core.List.{append-nil, append_assoc}
use runix.Base.{
  All, Bool, Bool-cases, Bytes, List, Option, [], ap, arith, false, if◌then◌else◌, inl, inr, keep,
  length, ltb, ltb→lt, lt→ltb, map, min, not, refl, some, sym, true, ◌++◌, ◌+◌, ◌∙◌, ◌∷◌, ◌≡◌,
}
use runix.Base.Texts.{decimal}
use runix.CitadelIntegration.WormLog.{WormEntry, transition_reason}
use runix.CitadelIntegration.WormLog.Chain.{record_lifecycle_transition_lem}
use runix.KernelArm.AuditChain.{
  AuditClass, BoundedAudit, coalesce, count_text, counted, event_text, individual_text, name,
  new_audit, note_coalesced, quota, record_event, starts_with, summary_due, summary_subject,
  summary_subject_prefix, summary_text, total_capacity,
}
use runix.KernelArm.AuditChain.Books.{Books, Books-room, is_summary, starts_with-append}
use runix.KernelArm.AuditChain.History.{
  Event, IsPlain, after, after-Books, after_all, asked, event, new_audit-Books, note,
  recorded-coalesce, recorded-record_event,
}

-- What an entry says of its event: the subject, the verdict and the reason.
abbrev pub Line : Type 0
Line = Bytes × Bool × Option Bytes

abbrev pub line : WormEntry → Line
line e = (e.module_id, e.authorized, e.reason)

-- What the entries that are not summaries say, in their order.
abbrev pub own_lines : BoundedAudit → List Line
own_lines a = map line (keep (λ e. not (is_summary e)) a.log.entries)

-- The lines of the events that find their class below its quota, after the earlier events.
abbrev pub admitted : List Event → List Event → List Line
admitted earlier [] = []
admitted earlier (note class reason ∷ es) = admitted (note class reason ∷ earlier) es
admitted earlier (event class subject from to au r ∷ es) =
    let rest = admitted (event class subject from to au r ∷ earlier) es in
    if ltb (asked class earlier) (quota class)
    then (subject, au, some (transition_reason from to r)) ∷ rest
    else rest

lines_push :
    (xs : List WormEntry) (e : WormEntry)
    → is_summary e ≡ false
    → map line (keep (λ x. not (is_summary x)) (xs ++ e ∷ []))
      ≡ map line (keep (λ x. not (is_summary x)) xs) ++ line e ∷ []
lines_push [] e q = rw q refl
lines_push (x ∷ xs) e q = elim (Bool-cases (is_summary x)) [
  | inl t ↦ rw t (lines_push xs e q)
  | inr t ↦ rw t (ap (λ ls. line x ∷ ls) (lines_push xs e q))
]

lines_summary :
    (xs : List WormEntry) (e : WormEntry)
    → is_summary e ≡ true
    → map line (keep (λ x. not (is_summary x)) (xs ++ e ∷ []))
      ≡ map line (keep (λ x. not (is_summary x)) xs)
lines_summary [] e q = rw q refl
lines_summary (x ∷ xs) e q = elim (Bool-cases (is_summary x)) [
  | inl t ↦ rw t (lines_summary xs e q)
  | inr t ↦ rw t (ap (λ ls. line x ∷ ls) (lines_summary xs e q))
]

-- Each class has as many entries as it asked for, up to its quota.
abbrev Counted : BoundedAudit → List Event → Type 0
Counted a earlier = (c : AuditClass) → (a.classes c).recorded ≡ min (quota c) (asked c earlier)

module _ (sha256 : Bytes → Bytes) where
  own_lines-coalesce :
      (a : BoundedAudit) (class : AuditClass) (reason : Bytes)
      → own_lines (coalesce sha256 a class reason).1 ≡ own_lines a
  unfolding coalesce
  own_lines-coalesce a class reason =
      elim (Bool-cases (summary_due (counted (a.classes class) reason))) [
        | inr d ↦ rw (coalesce, d) refl
        | inl d ↦
            let (e, pushed, same, verdict, why) =
              record_lifecycle_transition_lem sha256 a.log (summary_subject class) individual_text
                (count_text ++ decimal (counted (a.classes class) reason).dropped ++ 41 ∷ []) false
                (some (summary_text class (counted (a.classes class) reason))) in
            rw (coalesce, d, pushed)
              (lines_summary a.log.entries e
                (rw same (starts_with-append sha256 summary_subject_prefix (name class))))
      ]

  -- An event below its class's quota adds its line; another one adds none.
  own_lines-record_event :
      (a : BoundedAudit) (class : AuditClass) (subject from to : Bytes) (au : Bool)
      (r : Option Bytes)
      → starts_with subject summary_subject_prefix ≡ false
      → Books sha256 a
      → own_lines (record_event sha256 a class subject from to au r).1
        ≡ own_lines a
          ++ (if ltb (a.classes class).recorded (quota class)
              then (subject, au, some (transition_reason from to r)) ∷ []
              else [])
  unfolding record_event
  own_lines-record_event a class subject from to au r plain b =
      elim (Bool-cases (ltb (a.classes class).recorded (quota class))) [
        | inl t ↦
            let room : ltb (length a.log.entries) total_capacity ≡ true =
              lt→ltb _ _ (Books-room sha256 a class b (ltb→lt _ _ t)) in
            let (e, pushed, same, verdict, why) =
              record_lifecycle_transition_lem sha256 a.log subject from to au r in
            let said : line e ≡ (subject, au, some (transition_reason from to r)) =
              rw (same, verdict, why) refl in
            rw (record_event, t, room, pushed)
              (lines_push a.log.entries e (rw same plain)
                ∙ ap (λ (l : Line). own_lines a ++ l ∷ []) said)
        | inr f ↦
            rw (record_event, f)
              (own_lines-coalesce a class (event_text subject from to r)
                ∙ sym (append-nil (own_lines a)))
      ]

  after-Counted :
      (a : BoundedAudit) (e : Event) (earlier : List Event)
      → Books sha256 a
      → Counted a earlier
      → Counted (after sha256 a e) (e ∷ earlier)
  unfolding after note_coalesced
  after-Counted a (event class subject from to au r) earlier b n c =
      omega (arith, recorded-record_event sha256 a class c subject from to au r b, n c)
  after-Counted a (note class reason) earlier b n c =
      recorded-coalesce sha256 a class c reason ∙ n c

  -- What is in the log before a step, what the step adds and what the later events add.
  own_lines-after :
      (a : BoundedAudit) (e : Event) (earlier es : List Event)
      → IsPlain e
      → Books sha256 a
      → Counted a earlier
      → own_lines (after sha256 a e) ++ admitted (e ∷ earlier) es
        ≡ own_lines a ++ admitted earlier (e ∷ es)
  unfolding after note_coalesced
  own_lines-after a (note class reason) earlier es p b n =
      ap (λ ls. ls ++ admitted (note class reason ∷ earlier) es) (own_lines-coalesce a class reason)
  own_lines-after a (event class subject from to au r) earlier es p b n =
      let added = own_lines-record_event a class subject from to au r p b in
      let rest = admitted (event class subject from to au r ∷ earlier) es in
      let same : ltb (a.classes class).recorded (quota class)
          ≡ ltb (asked class earlier) (quota class) =
        ground (arith, n class) in
      ap (λ ls. ls ++ rest) added ∙ (elim (Bool-cases (ltb (asked class earlier) (quota class))) [
        | inl t ↦ rw (same, t) (append_assoc (own_lines a) _ rest)
        | inr t ↦ rw (same, t) (append_assoc (own_lines a) [] rest)
      ])

  own_lines-after_all :
      (a : BoundedAudit) (earlier es : List Event)
      → All IsPlain es
      → Books sha256 a
      → Counted a earlier
      → own_lines (after_all sha256 a es) ≡ own_lines a ++ admitted earlier es
  unfolding after_all
  own_lines-after_all a earlier [] p b n = sym (append-nil (own_lines a))
  own_lines-after_all a earlier (e ∷ es) p b n =
      own_lines-after_all (after sha256 a e) (e ∷ earlier) es p.1 (after-Books sha256 a e p.0 b)
        (after-Counted a e earlier b n)
      ∙ own_lines-after a e earlier es p.0 b n

  Counted-after_all :
      (a : BoundedAudit) (earlier es : List Event) (c : AuditClass)
      → All IsPlain es
      → Books sha256 a
      → Counted a earlier
      → ((after_all sha256 a es).classes c).recorded ≡ min (quota c) (asked c es + asked c earlier)
  unfolding after_all
  Counted-after_all a earlier [] c p b n = omega (arith, n c)
  Counted-after_all a earlier (event class subject from to au r ∷ es) c p b n =
      let e = event class subject from to au r in
      omega (
        arith,
        Counted-after_all (after sha256 a e) (e ∷ earlier) es c p.1 (after-Books sha256 a e p.0 b)
            (after-Counted a e earlier b n),
      )
  Counted-after_all a earlier (note class reason ∷ es) c p b n =
      let e = note class reason in
      Counted-after_all (after sha256 a e) (e ∷ earlier) es c p.1 (after-Books sha256 a e p.0 b)
        (after-Counted a e earlier b n)

  -- After any history of events none of whose subjects is that of a summary, the entries of the log that
  -- are not summaries are, in order, exactly those of the events that found their class below its quota,
  -- each with its subject, verdict and reason: no other class takes a class's room. And the counter of
  -- each class is the number of its events that asked for an entry, up to its quota.
  pub after_all-admitted :
      (es : List Event)
      → All IsPlain es
      → (own_lines (after_all sha256 new_audit es) ≡ admitted [] es)
        × ((c : AuditClass)
            → ((after_all sha256 new_audit es).classes c).recorded ≡ min (quota c) (asked c es))
  after_all-admitted es p = (
    own_lines-after_all new_audit [] es p (new_audit-Books sha256) (λ c. omega arith),
    λ c.
        omega (
          arith,
          Counted-after_all new_audit [] es c p (new_audit-Books sha256) (λ c. omega arith),
        ),
  )
