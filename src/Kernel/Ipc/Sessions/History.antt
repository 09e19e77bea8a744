-- ===== src/Kernel/Ipc/Sessions/History.antt =====
-- kernel/src/ipc.rs, the sessions: every history of calls keeps the table well-formed.
use runix.Base.{
  List, [], ap, arith, false, inl, inr, length, length-append, refl, subst, sym, true, ℕ, ◌++◌, ◌+◌,
  ◌<◌, ◌^◌, ◌∷◌, ◌≡◌, ◌≤◌, ◌⊎◌,
}
use runix.Kernel.Ipc.Sessions.{
  Role, Session, SessionTable, accept_from, change, no_sessions, owner_role, read,
  reap_sessions_for, server_role, session_accept, session_begin_send, session_channel_capacity,
  session_end_send, session_send, session_try_recv, set_locked, set_read, set_written, written,
}
use runix.Kernel.Ipc.Sessions.Tables.{
  IsBounded, IsMild, LanesFit, change-IsBounded, lanes_of, reap-IsBounded, session_accept-IsBounded,
  set_locked-IsMild, set_read-IsMild, set_written-IsMild,
}
use runix.Kernel.Ipc.Sessions.Opening.{session_open_cases, with_session-IsBounded}
use runix.Kernel.Ipc.Sessions.Calls.{
  Call, accepts, exits, locks, opens, participant_of, perform, receives, sends,
  session_begin_send_cases, session_end_send_cases, session_send_cases, session_try_recv_cases,
  step, unlocks,
}
use runix.Kernel.Ipc.Sessions.Pending.{
  IsPending, IsSilent, change-IsPending, reap-IsPending, session_accept-IsPending,
  set_locked-IsSilent, set_read-IsSilent, set_written-IsSilent, with_session-IsPending,
}

-- The bounds of the table, and its queues of sessions to accept.
pub record IsValid (table : SessionTable) : Type 0 where
  pub bounded : IsBounded table
  pub pending_ones : IsPending table

-- A call on a session leaves the table as it is, or makes a change that leaves alone who owns and serves
-- the session and what fits in its lanes.
abbrev pub Gentle : SessionTable → SessionTable → Type 0
Gentle table after =
    (after ≡ table)
    ⊎ ((id : ℕ) × (f : Session → Session) × (after ≡ change table id f) × IsMild f × IsSilent f)

Gentle-IsValid : (table after : SessionTable) → Gentle table after → IsValid table → IsValid after
Gentle-IsValid table after (inl e) v = subst IsValid (sym e) v
Gentle-IsValid table after (inr (id, f, e, m, k)) v = subst IsValid (sym e) (record {
  bounded = change-IsBounded table id f m v.bounded;
  pending_ones = change-IsPending table id f k v.pending_ones;
})

Gentle-next :
    (table after : SessionTable)
    → Gentle table after
    → after.next_session_id ≡ table.next_session_id
Gentle-next table after (inl e) = ap (λ (t : SessionTable). t.next_session_id) e
Gentle-next table after (inr (id, f, e, m, k)) = ap (λ (t : SessionTable). t.next_session_id) e

pub session_send-Gentle :
    (table : SessionTable) (id thread byte : ℕ) → Gentle table (session_send table id thread byte).1
session_send-Gentle table id thread byte = elim (session_send_cases table id thread byte) [
  | inl (n, e) ↦ inl (ap (λ r. r.1) e)
  | inr (s, role, p, inl (full, e)) ↦ inl (ap (λ r. r.1) e)
  | inr (s, role, p, inr (room, e)) ↦ inr (
    id,
    set_written role (written role s ++ byte ∷ []),
    ap (λ r. r.1) e,
    set_written-IsMild role (written role s ++ byte ∷ [])
        (omega (arith, length-append (written role s) (byte ∷ []), room)),
    set_written-IsSilent role (written role s ++ byte ∷ []),
  )
]

lane_fits :
    (role : Role) (s : Session) → LanesFit s → length (read role s) ≤ session_channel_capacity
lane_fits owner_role s f = f.1
lane_fits server_role s f = f.0

pub session_try_recv-Gentle :
    (table : SessionTable) (id thread : ℕ)
    → IsBounded table
    → Gentle table (session_try_recv table id thread).1
session_try_recv-Gentle table id thread v = elim (session_try_recv_cases table id thread) [
  | inl e ↦ inl (ap (λ r. r.1) e)
  | inr (s, role, b, bs, p, q, e) ↦
      let found = (participant_of table id thread s role p).0 in
      let fits = lane_fits role s (lanes_of table id s found v.lanes) in
      inr (
        id,
        set_read role bs,
        ap (λ r. r.1) e,
        set_read-IsMild role bs (omega (arith, ap length q, fits)),
        set_read-IsSilent role bs,
      )
]

pub session_begin_send-Gentle :
    (table : SessionTable) (id thread : ℕ) → Gentle table (session_begin_send table id thread).1
session_begin_send-Gentle table id thread = elim (session_begin_send_cases table id thread) [
  | inl e ↦ inl e
  | inr (role, e) ↦
      inr (id, set_locked role true, e, set_locked-IsMild role true, set_locked-IsSilent role true)
]

pub session_end_send-Gentle :
    (table : SessionTable) (id thread : ℕ) → Gentle table (session_end_send table id thread).1
session_end_send-Gentle table id thread = elim (session_end_send_cases table id thread) [
  | inl e ↦ inl e
  | inr (role, e) ↦
      inr
        (id, set_locked role false, e, set_locked-IsMild role false, set_locked-IsSilent role false)
]

accept_next :
    (table : SessionTable) (port server : ℕ) (ids : List ℕ)
    → (accept_from table port server ids).1.next_session_id ≡ table.next_session_id
accept_next table port server [] = refl
accept_next table port server (id ∷ ids) = refl

-- A call keeps the table well-formed and takes at most one id.
pub step-IsValid :
    (table : SessionTable) (c : ℕ × Call)
    → table.next_session_id + 1 < 2 ^ 64
    → IsValid table
    → IsValid (step table c)
      × (table.next_session_id ≤ (step table c).next_session_id)
      × ((step table c).next_session_id ≤ table.next_session_id + 1)
unfolding session_accept reap_sessions_for
step-IsValid table (thread, opens port) h v =
    elim (session_open_cases table port thread h v.bounded) [
      | inl (few, few_own, e) ↦
          rw (step, e)
            (
              record {
                bounded = with_session-IsBounded table port thread few few_own v.bounded;
                pending_ones = with_session-IsPending table port thread v.bounded v.pending_ones;
              },
              omega arith,
              omega arith,
            )
      | inr (r, e) ↦ rw (step, e) (v, omega arith, omega arith)
    ]
step-IsValid table (thread, accepts port) h v = (
  record {
    bounded = session_accept-IsBounded table port thread v.bounded;
    pending_ones = session_accept-IsPending table port thread v.pending_ones;
  },
  omega (arith, accept_next table port thread (table.pending port)),
  omega (arith, accept_next table port thread (table.pending port)),
)
step-IsValid table (thread, sends id byte) h v =
    let g = session_send-Gentle table id thread byte in
    (
      Gentle-IsValid table _ g v,
      omega (arith, Gentle-next table _ g),
      omega (arith, Gentle-next table _ g),
    )
step-IsValid table (thread, receives id) h v =
    let g = session_try_recv-Gentle table id thread v.bounded in
    (
      Gentle-IsValid table _ g v,
      omega (arith, Gentle-next table _ g),
      omega (arith, Gentle-next table _ g),
    )
step-IsValid table (thread, locks id) h v =
    let g = session_begin_send-Gentle table id thread in
    (
      Gentle-IsValid table _ g v,
      omega (arith, Gentle-next table _ g),
      omega (arith, Gentle-next table _ g),
    )
step-IsValid table (thread, unlocks id) h v =
    let g = session_end_send-Gentle table id thread in
    (
      Gentle-IsValid table _ g v,
      omega (arith, Gentle-next table _ g),
      omega (arith, Gentle-next table _ g),
    )
step-IsValid table (thread, exits) h v = (
  record {
    bounded = reap-IsBounded table thread v.bounded;
    pending_ones = reap-IsPending table thread v.pending_ones;
  },
  omega arith,
  omega arith,
)

pub perform_from-IsValid :
    (table : SessionTable) (cs : List (ℕ × Call))
    → table.next_session_id + length cs < 2 ^ 64
    → IsValid table
    → IsValid (perform table cs)
perform_from-IsValid table [] h v = v
perform_from-IsValid table (c ∷ cs) h v =
    let (w, more, few) = step-IsValid table c (omega (arith, h)) v in
    perform_from-IsValid (step table c) cs (omega (arith, h, few)) w

-- Whatever fewer than 2 ^ 64 - 1 calls the threads make, in any order and with exits among them: the ids
-- of the sessions are apart, at most 64 sessions live and at most 8 of one owner, at most 32 bytes wait in
-- a lane; and each pending id is that of a live session against its port that nobody serves, and is
-- pending once.
pub perform-IsValid :
    (cs : List (ℕ × Call)) → 1 + length cs < 2 ^ 64 → IsValid (perform no_sessions cs)
perform-IsValid cs h = perform_from-IsValid no_sessions cs h (record {
  bounded = record {
    ids_below = tt;
    ids_apart = tt;
    few = omega arith;
    few_each = λ thread. omega arith;
    lanes = tt;
  };
  pending_ones = record { waiting = λ port. tt; once = λ port. tt };
})
