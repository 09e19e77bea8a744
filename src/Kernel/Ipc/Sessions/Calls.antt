-- ===== src/Kernel/Ipc/Sessions/Calls.antt =====
-- kernel/src/ipc.rs, the sessions: the calls that threads make, in any order.
use runix.Base.{
  Bool-cases, Bytes, Bytes-cases, List, Option, Option-cases, [], arith, false, inl, inr, is_some,
  length, ltb, ltb→lt, none, refl, some, subst, sym, true, ℕ, ◌++◌, ◌<◌, ◌∙◌, ◌∷◌, ◌≡◌, ◌≤◌, ◌⊎◌,
}
use runix.Kernel.Ipc.{answer, yields}
use runix.Kernel.Ipc.Sessions.{
  Role, Session, SessionTable, change, get, is_locked, participant, read, reap_sessions_for,
  role_of, session_accept, session_begin_send, session_channel_capacity, session_end_send,
  session_open, session_pending, session_send, session_try_recv, set_locked, set_read, set_written,
  written,
}

-- A pass of a call on a session or a port; `exits` is the reaping of a thread that has ended.
pub data Call : Type 0 where
  opens accepts receives locks unlocks : ℕ → Call
  sends : ℕ → ℕ → Call
  exits : Call

-- The table after a call of a thread.
abbrev pub step : SessionTable → ℕ × Call → SessionTable
step table (thread, opens port) = (session_open table port thread).1
step table (thread, accepts port) = (session_accept table port thread).1
step table (thread, sends id byte) = (session_send table id thread byte).1
step table (thread, receives id) = (session_try_recv table id thread).1
step table (thread, locks id) = (session_begin_send table id thread).1
step table (thread, unlocks id) = (session_end_send table id thread).1
step table (thread, exits) = reap_sessions_for table thread

abbrev pub perform : SessionTable → List (ℕ × Call) → SessionTable
perform table [] = table
perform table (c ∷ cs) = perform (step table c) cs

pub participant_of :
    (table : SessionTable) (id caller : ℕ) (s : Session) (role : Role)
    → participant table id caller ≡ some (s, role)
    → (get id table.sessions ≡ some s) × (role_of s caller ≡ some role)
unfolding participant
participant_of table id caller s role e = elim (Option-cases (get id table.sessions)) [
  | inl g ↦ absurd (ground arith)
  | inr (u, g) ↦ elim (Option-cases (role_of u caller)) [
    | inl r ↦ absurd (ground arith)
    | inr (q, r) ↦
        let has : participant table id caller ≡ some (u, q) = rw (participant, g, r) refl in
        let same : ◌≡◌ {A = Option (Session × Role)} (some (u, q)) (some (s, role)) = sym has ∙ e in
        let same_s : u ≡ s = ground arith in
        let same_role : q ≡ role = ground arith in
        (rw (sym same_s) g, subst (λ v. role_of v caller ≡ some role) same_s (rw (sym same_role) r))
  ]
]

-- What a pass of `session_send` does.
pub session_send_cases :
    (table : SessionTable) (id caller byte : ℕ)
    → ((participant table id caller ≡ none)
        × (session_send table id caller byte ≡ (answer false, table)))
      ⊎ ((s : Session) × (role : Role) × (participant table id caller ≡ some (s, role))
          × (((session_channel_capacity ≤ length (written role s))
                × (session_send table id caller byte ≡ (yields, table)))
              ⊎ ((length (written role s) < session_channel_capacity)
                  × (session_send table id caller byte ≡ (
                    answer true,
                    change table id (set_written role (written role s ++ byte ∷ [])),
                  )))))
unfolding session_send
session_send_cases table id caller byte = elim (Option-cases (participant table id caller)) [
  | inl e ↦ inl (e, rw (session_send, e) refl)
  | inr ((s, role), e) ↦ inr (
    s,
    role,
    e,
    elim (Bool-cases (ltb (length (written role s)) session_channel_capacity)) [
      | inl f ↦ inr (ltb→lt _ _ f, rw (session_send, e, f) refl)
      | inr f ↦ inl (ground arith, rw (session_send, e, f) refl)
    ],
  )
]

-- What `session_try_recv` does.
pub session_try_recv_cases :
    (table : SessionTable) (id caller : ℕ)
    → (session_try_recv table id caller ≡ (none, table))
      ⊎ ((s : Session) × (role : Role) × (b : ℕ) × (bs : Bytes) × (participant table id caller
            ≡ some (s, role))
          × (read role s ≡ b ∷ bs)
          × (session_try_recv table id caller ≡ (some b, change table id (set_read role bs))))
unfolding session_try_recv
session_try_recv_cases table id caller = elim (Option-cases (participant table id caller)) [
  | inl e ↦ inl (rw (session_try_recv, e) refl)
  | inr ((s, role), e) ↦ elim (Bytes-cases (read role s)) [
    | inl f ↦ inl (rw (session_try_recv, e, f) refl)
    | inr (b, bs, f) ↦ inr (s, role, b, bs, e, f, rw (session_try_recv, e, f) refl)
  ]
]

-- What the calls on the locks do: nothing, or they set the lock of a role.
pub session_begin_send_cases :
    (table : SessionTable) (id caller : ℕ)
    → ((session_begin_send table id caller).1 ≡ table)
      ⊎ ((role : Role) × ((session_begin_send table id caller).1
            ≡ change table id (set_locked role true)))
unfolding session_begin_send
session_begin_send_cases table id caller = elim (Option-cases (participant table id caller)) [
  | inl e ↦ inl (rw (session_begin_send, e) refl)
  | inr ((s, role), e) ↦ elim (Bool-cases (is_locked role s)) [
    | inl f ↦ inl (rw (session_begin_send, e, f) refl)
    | inr f ↦ inr (role, rw (session_begin_send, e, f) refl)
  ]
]

pub session_end_send_cases :
    (table : SessionTable) (id caller : ℕ)
    → ((session_end_send table id caller).1 ≡ table)
      ⊎ ((role : Role) × ((session_end_send table id caller).1
            ≡ change table id (set_locked role false)))
unfolding session_end_send
session_end_send_cases table id caller = elim (Option-cases (participant table id caller)) [
  | inl e ↦ inl (rw (session_end_send, e) refl)
  | inr ((s, role), e) ↦ inr (role, rw (session_end_send, e) refl)
]

-- `session_pending` says whether `session_accept` finds a session.
pub session_pending-session_accept :
    (table : SessionTable) (port server : ℕ)
    → session_pending table port ≡ is_some (session_accept table port server).0
unfolding session_pending session_accept
session_pending-session_accept table port server = elim (Bytes-cases (table.pending port)) [
  | inl e ↦ rw (e) (ground arith)
  | inr (b, bs, e) ↦ rw (e) (ground arith)
]
