-- ===== src/Kernel/Ipc/Sessions/Exchange.antt =====
-- kernel/src/ipc.rs, the sessions: each lane of a session is a queue, over every history of calls.
use mathlib.Core.List.{append-nil}
use runix.Base.Keyed.{All-at, at-keep, at-keep-gone, at_push}
use runix.Base.{
  Bool, Bool-cases, List, [], ap, arith, false, if◌then◌else◌, inl, inr, none, not, refl, some, sym,
  true, ℕ, ◌&&◌, ◌++◌, ◌+◌, ◌<◌, ◌==◌, ◌^◌, ◌∙◌, ◌∷◌, ◌≡◌, ◌⊎◌,
}
use runix.Kernel.Ipc.Sessions.{
  Role, Session, SessionTable, accept_from, change, fresh_session, get, owner_role,
  reap_sessions_for, served_by, server_role, session_accept, session_open, set_locked, written,
}
use runix.Kernel.Ipc.Sessions.Tables.{get-none}
use runix.Kernel.Ipc.Sessions.Opening.{session_open_cases}
use runix.Kernel.Ipc.Sessions.Calls.{
  Call, accepts, exits, locks, opens, receives, sends, session_begin_send_cases,
  session_end_send_cases, step, unlocks,
}
use runix.Kernel.Ipc.Sessions.Pending.{set_locked-IsSilent}
use runix.Kernel.Ipc.Sessions.History.{IsValid}
use runix.Kernel.Ipc.Sessions.Lanes.{
  Carried, change-Flows, changed, got, idle_flows, other, receive_flows, send_flows, wrote,
}

set_locked-written :
    (r role : Role) (b : Bool) (s : Session) → written role (set_locked r b s) ≡ written role s
set_locked-written owner_role owner_role b s = refl
set_locked-written owner_role server_role b s = refl
set_locked-written server_role owner_role b s = refl
set_locked-written server_role server_role b s = refl

-- A change of a lock, or none.
lock_flows :
    (table : SessionTable) (c : ℕ × Call) (i id : ℕ) (b : Bool) (s : Session)
    → (step table c ≡ table) ⊎ ((r : Role) × (step table c ≡ change table i (set_locked r b)))
    → ((role : Role) → wrote id role table c ≡ [])
    → ((role : Role) → got id role table c ≡ [])
    → get id table.sessions ≡ some s
    → Carried id table c s
lock_flows table c i id b s (inl e) w r g = idle_flows table c id s e w r g
lock_flows table c i id b s (inr (l, e)) w r g =
    change-Flows table c i id (set_locked l b) s e (set_locked-IsSilent l b).keeps_id g (λ role.
      ap (λ q. written role s ++ q) (w role)
      ∙ append-nil (written role s)
      ∙ elim (Bool-cases (i == id)) [
        | inl q ↦ rw (q, r (other role)) (sym (set_locked-written l role b s))
        | inr q ↦ rw (q, r (other role)) refl
      ])

server-written :
    (role : Role) (t : ℕ) (s : Session)
    → written role (record s { server = some t }) ≡ written role s
server-written owner_role t s = refl
server-written server_role t s = refl

accept_flows :
    (table : SessionTable) (port t id : ℕ) (s : Session) (ids : List ℕ)
    → get id table.sessions ≡ some s
    → (get id (accept_from table port t ids).1.sessions ≡ none)
      ⊎ ((after : Session) × (get id (accept_from table port t ids).1.sessions ≡ some after)
          × ((role : Role) → written role s ≡ written role after))
accept_flows table port t id s [] g = inr (s, g, λ role. refl)
accept_flows table port t id s (i ∷ ids) g =
    let looked = changed table i id (λ x. record x { server = some t }) s (λ x. refl) g in
    inr (
      if i == id then record s { server = some t } else s,
      looked,
      λ role. elim (Bool-cases (i == id)) [
        | inl q ↦ rw (q) (sym (server-written role t s))
        | inr q ↦ rw (q) refl
      ],
    )

open_flows :
    (table : SessionTable) (port t id : ℕ) (s : Session)
    → table.next_session_id + 1 < 2 ^ 64
    → IsValid table
    → get id table.sessions ≡ some s
    → get id (session_open table port t).1.sessions ≡ some s
open_flows table port t id s h v g = elim (session_open_cases table port t h v.bounded) [
  | inl (few, few_own, e) ↦
      let (small, same) =
        All-at (λ (x : Session). x.id) (λ x. x.id < table.next_session_id) id table.sessions s g
          v.bounded.ids_below in
      let differ : (table.next_session_id == id) ≡ false = ground arith in
      let looked =
        at_push (λ (x : Session). x.id) table.next_session_id id
          (fresh_session table.next_session_id port t) table.sessions refl
          (get-none table.next_session_id table.sessions v.bounded.ids_below) in
      rw (e) (looked ∙ rw (differ) g)
  | inr (r, e) ↦ rw (e) g
]

exit_flows :
    (table : SessionTable) (t id : ℕ) (s : Session)
    → IsValid table
    → get id table.sessions ≡ some s
    → (get id (reap_sessions_for table t).sessions ≡ none)
      ⊎ (get id (reap_sessions_for table t).sessions ≡ some s)
unfolding reap_sessions_for
exit_flows table t id s v g =
    let live = λ (x : Session). not (x.owner == t) && not (served_by x t) in
    elim (Bool-cases (live s)) [
      | inl e ↦ inr (at-keep (λ (x : Session). x.id) live id table.sessions s g e)
      | inr e ↦
          inl
            (at-keep-gone (λ (x : Session). x.id) live id table.sessions s g e v.bounded.ids_apart)
    ]

pub step_flows :
    (table : SessionTable) (c : ℕ × Call) (id : ℕ) (s : Session)
    → table.next_session_id + 1 < 2 ^ 64
    → IsValid table
    → get id table.sessions ≡ some s
    → Carried id table c s
unfolding session_accept
step_flows table (t, opens port) id s h v g =
    inr (s, open_flows table port t id s h v g, λ role. append-nil (written role s))
step_flows table (t, accepts port) id s h v g =
    elim (accept_flows table port t id s (table.pending port) g) [
      | inl e ↦ inl e
      | inr (after, e, same) ↦ inr (after, e, λ role. append-nil (written role s) ∙ same role)
    ]
step_flows table (t, sends i b) id s h v g = send_flows table t i b id s g
step_flows table (t, receives i) id s h v g = receive_flows table t i id s g
step_flows table (t, locks i) id s h v g =
    lock_flows table (t, locks i) i id true s (session_begin_send_cases table i t) (λ role. refl)
      (λ role. refl) g
step_flows table (t, unlocks i) id s h v g =
    lock_flows table (t, unlocks i) i id false s (session_end_send_cases table i t) (λ role. refl)
      (λ role. refl) g
step_flows table (t, exits) id s h v g = elim (exit_flows table t id s v g) [
  | inl e ↦ inl e
  | inr e ↦ inr (s, e, λ role. append-nil (written role s))
]
