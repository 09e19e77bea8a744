-- ===== src/KernelArm/DataState/Sessions.antt =====
-- The data sessions of kernel-arm/src/data_state.rs: opening, refreshing and closing them.
use runix.Mobile.Policy.{
  AccountStandingForData, DataEntitlement, ProfileLifecycleForData, SessionDecision, allow,
  allow_throttled, decide, deny,
}
use runix.Base.{
  ==-refl, ==_iff, Bool, Bool-cases, List, Option-cases, [], ap, arith, false, find, inl, inr,
  is_some, keep, leb, leb→le, length, length-append, length-update_first, none, not, refl, some,
  subst, sym, true, update_first, ℕ, ◌++◌, ◌+◌, ◌<◌, ◌==◌, ◌↔◌, ◌∙◌, ◌∷◌, ◌≡◌, ◌≢◌, ◌≤◌, ◌⊎◌,
}
use runix.Base.Membership.{In}
use runix.KernelArm.DataState.{
  DataSession, DataState, close_session, close_sessions_for_account, close_sessions_for_profile,
  decide_and_open, drain_sessions, max_data_sessions, not_recorded, opened, record_if,
  record_session, refreshed, same_session, session_request, sessions_full, split,
}
use runix.KernelArm.DataState.Tables.{DistinctSessions, IsValid, with_sessions}

keep-none :
    (p q : DataSession → Bool) (xs : List DataSession)
    → find p xs ≡ none
    → find p (keep q xs) ≡ none
keep-none p q [] h = refl
keep-none p q (x ∷ xs) h = ground (arith, keep-none p q xs)

DistinctSessions-keep :
    (q : DataSession → Bool) (xs : List DataSession)
    → DistinctSessions xs
    → DistinctSessions (keep q xs)
DistinctSessions-keep q [] d = tt
DistinctSessions-keep q (x ∷ xs) d =
    ground (arith, keep-none (λ e. same_session e x) q xs d.0, DistinctSessions-keep q xs d.1)

length-keep : (q : DataSession → Bool) (xs : List DataSession) → length (keep q xs) ≤ length xs
length-keep q [] = omega arith
length-keep q (x ∷ xs) = ground (arith, length-keep q xs)

-- The loop is a filter, and its complement.
split-keep :
    (m : DataSession → Bool) (xs : List DataSession)
    → split m xs ≡ (keep m xs, keep (λ e. not (m e)) xs)
unfolding split
split-keep m [] = refl
split-keep m (x ∷ xs) = ground (arith, split-keep m xs)

find_push :
    (p : DataSession → Bool) (e : DataSession) (xs : List DataSession)
    → find p xs ≡ none
    → p e ≡ false
    → find p (xs ++ e ∷ []) ≡ none
find_push p e [] h f = ground arith
find_push p e (x ∷ xs) h f = ground (arith, find_push p e xs)

same_sym : (x e : DataSession) → same_session x e ≡ false → same_session e x ≡ false
unfolding same_session
same_sym x e h = ground (arith, ==_iff x.account e.account)

find-none_cons :
    (p : DataSession → Bool) (x : DataSession) (xs : List DataSession)
    → find p (x ∷ xs) ≡ none
    → (p x ≡ false) × (find p xs ≡ none)
find-none_cons p x xs h = ground arith

DistinctSessions-push :
    (e : DataSession) (xs : List DataSession)
    → find (λ x. same_session x e) xs ≡ none
    → DistinctSessions xs
    → DistinctSessions (xs ++ e ∷ [])
DistinctSessions-push e [] n d = (refl, tt)
DistinctSessions-push e (x ∷ xs) n d =
    let (first, rest) = find-none_cons (λ x. same_session x e) x xs n in
    (
      find_push (λ y. same_session y x) e xs d.0 (same_sym x e first),
      DistinctSessions-push e xs rest d.1,
    )

find_update :
    (p q : DataSession → Bool) (f : DataSession → DataSession) (xs : List DataSession)
    → ((e : DataSession) → p (f e) ≡ p e)
    → find p xs ≡ none
    → find p (update_first q f xs) ≡ none
find_update p q f [] h n = refl
find_update p q f (x ∷ xs) h n = ground (arith, h x, find_update p q f xs h)

DistinctSessions-update :
    (q : DataSession → Bool) (roams : Bool) (xs : List DataSession)
    → DistinctSessions xs
    → DistinctSessions (update_first q (λ e. record e { roams = roams }) xs)
unfolding same_session
DistinctSessions-update q roams [] d = tt
DistinctSessions-update q roams (x ∷ xs) d = elim (Bool-cases (q x)) [
  | inl t ↦ rw t d
  | inr t ↦ rw t (
    find_update (λ e. same_session e x) q (λ e. record e { roams = roams }) xs (λ e. refl) d.0,
    DistinctSessions-update q roams xs d.1,
  )
]

module _ (s : DataState) (v : IsValid s) where
  pub record_session-IsValid : (x : DataSession) → IsValid (record_session s x).1
  unfolding record_session
  record_session-IsValid x = elim (Option-cases (find (λ e. same_session e x) s.sessions)) [
    | inl e ↦ elim (Bool-cases (leb max_data_sessions (length s.sessions))) [
      | inl full ↦ rw (e, record_session, full) v
      | inr room ↦
          rw (e, record_session, room)
            (with_sessions s v _ (DistinctSessions-push x s.sessions e v.session_table)
              (ground (arith, length-append s.sessions (x ∷ []))))
    ]
    | inr (u, e) ↦
        rw (e, record_session)
          (with_sessions s v _
            (DistinctSessions-update (λ e. same_session e x) x.roams s.sessions v.session_table)
            (rw
              (length-update_first (λ e. same_session e x) (λ e. record e { roams = x.roams })
                s.sessions)
              v.few_sessions))
  ]

  record_if-IsValid : (d : SessionDecision) (x : DataSession) → IsValid (record_if d s x).1
  unfolding record_if
  record_if-IsValid (deny reason) x = v
  record_if-IsValid allow x = record_session-IsValid x
  record_if-IsValid allow_throttled x = record_session-IsValid x

  kept-IsValid : (q : DataSession → Bool) → IsValid (record s { sessions = keep q s.sessions })
  kept-IsValid q =
      with_sessions s v _ (DistinctSessions-keep q s.sessions v.session_table)
        (omega (arith, length-keep q s.sessions, v.few_sessions))

  pub close_session-IsValid : (a slot profile : ℕ) → IsValid (close_session s a slot profile).1
  unfolding close_session
  close_session-IsValid a slot profile = kept-IsValid _

  drain-IsValid : (m : DataSession → Bool) → IsValid (drain_sessions s m).1
  unfolding drain_sessions
  drain-IsValid m = rw (split-keep m s.sessions) (kept-IsValid (λ e. not (m e)))

  pub close_sessions_for_account-IsValid : (a : ℕ) → IsValid (close_sessions_for_account s a).1
  unfolding close_sessions_for_account
  close_sessions_for_account-IsValid a = drain-IsValid _

  pub close_sessions_for_profile-IsValid :
      (slot profile : ℕ) → IsValid (close_sessions_for_profile s slot profile).1
  unfolding close_sessions_for_profile
  close_sessions_for_profile-IsValid slot profile = drain-IsValid _

  pub decide_and_open-IsValid :
      (a slot profile : ℕ) (roams : Bool) (st : AccountStandingForData)
      (lc : ProfileLifecycleForData) (e : DataEntitlement)
      → IsValid (decide_and_open s a slot profile roams st lc e).1
  unfolding decide_and_open
  decide_and_open-IsValid a slot profile roams st lc e = record_if-IsValid _ _

abbrev pub IsDenied : SessionDecision → Type 0
IsDenied (deny reason) = Unit {0}
IsDenied allow = ⊥
IsDenied allow_throttled = ⊥

In-keep :
    (q : DataSession → Bool) (x : DataSession) (xs : List DataSession)
    → In x (keep q xs) ↔ (In x xs × (q x ≡ true))
In-keep q x [] = ground arith
In-keep q x (y ∷ ys) = elim (Bool-cases (q y)) [
  | inl t ↦ rw t (
    elim [
      | inl e ↦ (inl e, subst (λ z. q z ≡ true) (sym e) t)
      | inr m ↦ let (k, f) = (In-keep q x ys).0 m in (inr k, f)
    ],
    λ h. elim (h.0) [ inl e ↦ inl e | inr m ↦ inr ((In-keep q x ys).1 (m, h.1)) ],
  )
  | inr t ↦ rw t (
    λ m. let (k, f) = (In-keep q x ys).0 m in (inr k, f),
    λ h. elim (h.0) [
      | inl e ↦ absurd (ground (arith, ap q e))
      | inr m ↦ (In-keep q x ys).1 (m, h.1)
    ],
  )
]

length-keep_split :
    (q : DataSession → Bool) (xs : List DataSession)
    → length (keep q xs) + length (keep (λ e. not (q e)) xs) ≡ length xs
length-keep_split q [] = refl
length-keep_split q (x ∷ xs) = ground (arith, length-keep_split q xs)

-- Closing an account's sessions returns the sessions of the account, leaves those of the others, and
-- loses none; the usage, the periods and the last resets are kept.
pub close_sessions_for_account_iff :
    (s : DataState) (a : ℕ)
    → let (removed, s') = close_sessions_for_account s a in
      ((x : DataSession)
        → (In x removed ↔ (In x s.sessions × (x.account ≡ a)))
          × (In x s'.sessions ↔ (In x s.sessions × (x.account ≢ a))))
      × (length removed + length s'.sessions ≡ length s.sessions)
      × (s'.usage ≡ s.usage)
      × (s'.periods ≡ s.periods)
      × (s'.last_resets ≡ s.last_resets)
unfolding close_sessions_for_account drain_sessions
close_sessions_for_account_iff s a = rw (split-keep (λ e. e.account == a) s.sessions) (
  λ x.
      let kept = In-keep (λ e. e.account == a) x s.sessions in
      let left = In-keep (λ e. not (e.account == a)) x s.sessions in
      (
        (
          λ m. ((kept.0 m).0, (==_iff x.account a).0 (kept.0 m).1),
          λ h. kept.1 (h.0, (==_iff x.account a).1 (h.1)),
        ),
        (λ m. ((left.0 m).0, ground (arith, (left.0 m).1)), λ h. left.1 (h.0, ground arith)),
      ),
  length-keep_split (λ e. e.account == a) s.sessions,
  refl,
  refl,
  refl,
)

find_pushed :
    (p : DataSession → Bool) (e : DataSession) (xs : List DataSession)
    → find p xs ≡ none
    → p e ≡ true
    → find p (xs ++ e ∷ []) ≡ some e
find_pushed p e [] n t = ground arith
find_pushed p e (x ∷ xs) n t = ground (arith, find_pushed p e xs)

find_updated :
    (p : DataSession → Bool) (f : DataSession → DataSession) (xs : List DataSession)
    (u : DataSession)
    → ((e : DataSession) → p (f e) ≡ p e)
    → find p xs ≡ some u
    → (find p (update_first p f xs) ≡ some (f u)) × (p u ≡ true)
find_updated p f [] u h n = absurd (ground arith)
find_updated p f (x ∷ xs) u h n = elim (Bool-cases (p x)) [
  | inl t ↦
      let same : x ≡ u = ground arith in
      (rw (t, h x, t) (ap (λ z. some (f z)) same), subst (λ z. p z ≡ true) same t)
  | inr t ↦ let (found, holds) = find_updated p f xs u h (ground arith) in (rw (t, t) found, holds)
]

same_session_eq : (u x : DataSession) → same_session u x ≡ true → record u { roams = x.roams } ≡ x
unfolding same_session
same_session_eq u x h =
    let a : u.account ≡ x.account = ground arith in
    let b : u.slot ≡ x.slot = ground arith in
    let c : u.profile ≡ x.profile = ground arith in rw (a, b, c) refl

-- What recording a session does: an entry for it is found afterwards, or the table has none and is
-- full, and nothing changes.
record_session_cases :
    (s : DataState) (x : DataSession)
    → let (r, s') = record_session s x in
      (((r ≡ opened) ⊎ (r ≡ refreshed))
        × (find (λ y. same_session y x) s'.sessions ≡ some x)
        × ((is_some (find (λ y. same_session y x) s.sessions) ≡ true)
            ⊎ (length s.sessions < max_data_sessions)))
      ⊎ ((r ≡ sessions_full)
          × (find (λ y. same_session y x) s.sessions ≡ none)
          × (max_data_sessions ≤ length s.sessions)
          × (s' ≡ s))
unfolding record_session same_session
record_session_cases s x = elim (Option-cases (find (λ e. same_session e x) s.sessions)) [
  | inl e ↦ elim (Bool-cases (leb max_data_sessions (length s.sessions))) [
    | inl full ↦ rw (e, record_session, full) (inr (refl, refl, leb→le _ _ full, refl))
    | inr room ↦
        rw (e, record_session, room)
          (inl (
            inl refl,
            find_pushed (λ y. same_session y x) x s.sessions e
                (ground (arith, ==-refl x.account, ==-refl x.slot, ==-refl x.profile)),
            inr (ground arith),
          ))
  ]
  | inr (u, e) ↦
      let found =
        find_updated (λ y. same_session y x) (λ y. record y { roams = x.roams }) s.sessions u
          (λ y. refl) e in
      rw (e, record_session)
        (inl (inr refl, found.0 ∙ ap some (same_session_eq u x found.1), inl refl))
]

record_if_cases :
    (s : DataState) (d : SessionDecision) (x : DataSession)
    → let (r, s') = record_if d s x in
      let held = find (λ y. same_session y x) s.sessions in
      (IsDenied d × (r ≡ not_recorded) × (s' ≡ s))
      ⊎ ((¬ IsDenied d)
          × ((((r ≡ opened) ⊎ (r ≡ refreshed))
                × (find (λ y. same_session y x) s'.sessions ≡ some x)
                × ((is_some held ≡ true) ⊎ (length s.sessions < max_data_sessions)))
              ⊎ ((r ≡ sessions_full)
                  × (held ≡ none)
                  × (max_data_sessions ≤ length s.sessions)
                  × (s' ≡ s))))
unfolding record_if
record_if_cases s (deny reason) x = inl (tt, refl, refl)
record_if_cases s allow x = inr (λ v. absurd v, record_session_cases s x)
record_if_cases s allow_throttled x = inr (λ v. absurd v, record_session_cases s x)

-- A denial records no session and leaves the state; otherwise the session is recorded, and found
-- afterwards with the roaming flag that was asked for, exactly when it was in the table or the table
-- had room, and else the state is left.
pub decide_and_open_recorded :
    (s : DataState) (a slot profile : ℕ) (roams : Bool) (st : AccountStandingForData)
    (lc : ProfileLifecycleForData) (e : DataEntitlement)
    → let (out, s') = decide_and_open s a slot profile roams st lc e in
      let x : DataSession = record { account = a; slot = slot; profile = profile; roams = roams } in
      let held = find (λ y. same_session y x) s.sessions in
      (IsDenied out.decision_record.decision × (out.recorded ≡ not_recorded) × (s' ≡ s))
      ⊎ ((¬ IsDenied out.decision_record.decision)
          × ((((out.recorded ≡ opened) ⊎ (out.recorded ≡ refreshed))
                × (find (λ y. same_session y x) s'.sessions ≡ some x)
                × ((is_some held ≡ true) ⊎ (length s.sessions < max_data_sessions)))
              ⊎ ((out.recorded ≡ sessions_full)
                  × (held ≡ none)
                  × (max_data_sessions ≤ length s.sessions)
                  × (s' ≡ s))))
unfolding decide_and_open
decide_and_open_recorded s a slot profile roams st lc e =
    record_if_cases s (decide (session_request s a roams st lc e)).decision
      (record { account = a; slot = slot; profile = profile; roams = roams })
