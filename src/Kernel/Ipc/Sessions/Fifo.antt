-- ===== src/Kernel/Ipc/Sessions/Fifo.antt =====
-- kernel/src/ipc.rs, the sessions: what is read is what was written, in order.
use runix.Kernel.Ipc.Sessions.Exchange.{step_flows}
use mathlib.Core.List.{append-nil, append_assoc}
use runix.Base.Keyed.{All-at, at-keep-none, at-update_first, at_push}
use runix.Base.{
  Bool-cases, Bytes, List, [], ap, arith, false, inl, inr, length, none, not, refl, some, sym,
  update_first, ℕ, ◌&&◌, ◌++◌, ◌+◌, ◌<◌, ◌==◌, ◌^◌, ◌∙◌, ◌∷◌, ◌≡◌,
}
use runix.Kernel.Ipc.Sessions.{
  Role, Session, SessionTable, accept_from, fresh_session, get, reap_sessions_for, served_by,
  session_accept, written,
}
use runix.Kernel.Ipc.Sessions.Tables.{get-none}
use runix.Kernel.Ipc.Sessions.Opening.{session_open_cases}
use runix.Kernel.Ipc.Sessions.Calls.{
  Call, accepts, exits, locks, opens, perform, receives, sends, step, unlocks,
}
use runix.Kernel.Ipc.Sessions.History.{
  Gentle, IsValid, session_begin_send-Gentle, session_end_send-Gentle, session_send-Gentle,
  session_try_recv-Gentle, step-IsValid,
}
use runix.Kernel.Ipc.Sessions.Lanes.{all_read, all_written, got, other, wrote}

updated-none :
    (sessions : List Session) (i id : ℕ) (f : Session → Session)
    → ((x : Session) → (f x).id ≡ x.id)
    → get id sessions ≡ none
    → get id (update_first (λ x. x.id == i) f sessions) ≡ none
updated-none sessions i id f k g =
    rw (at-update_first (λ (x : Session). x.id) f i id sessions k, g)
      (elim (Bool-cases (i == id)) [ inl e ↦ rw (e) refl | inr e ↦ rw (e) refl ])

Gentle-none :
    (table after : SessionTable) (id : ℕ)
    → Gentle table after
    → get id table.sessions ≡ none
    → get id after.sessions ≡ none
Gentle-none table after id (inl e) g = ap (λ (x : SessionTable). get id x.sessions) e ∙ g
Gentle-none table after id (inr (i, f, e, m, k)) g =
    ap (λ (x : SessionTable). get id x.sessions) e ∙ updated-none table.sessions i id f k.keeps_id g

accept-none :
    (table : SessionTable) (port t id : ℕ) (ids : List ℕ)
    → get id table.sessions ≡ none
    → get id (accept_from table port t ids).1.sessions ≡ none
accept-none table port t id [] g = g
accept-none table port t id (i ∷ ids) g =
    updated-none table.sessions i id (λ x. record x { server = some t }) (λ x. refl) g

-- An id that was given out is not given out again.
step_gone :
    (table : SessionTable) (c : ℕ × Call) (id : ℕ)
    → table.next_session_id + 1 < 2 ^ 64
    → IsValid table
    → id < table.next_session_id
    → get id table.sessions ≡ none
    → get id (step table c).sessions ≡ none
unfolding session_accept reap_sessions_for
step_gone table (t, opens port) id h v old g = elim (session_open_cases table port t h v.bounded) [
  | inl (few, few_own, e) ↦
      let differ : (table.next_session_id == id) ≡ false = ground arith in
      let looked =
        at_push (λ (x : Session). x.id) table.next_session_id id
          (fresh_session table.next_session_id port t) table.sessions refl
          (get-none table.next_session_id table.sessions v.bounded.ids_below) in
      rw (step, e) (looked ∙ rw (differ) g)
  | inr (r, e) ↦ rw (step, e) g
]
step_gone table (t, accepts port) id h v old g = accept-none table port t id (table.pending port) g
step_gone table (t, sends i b) id h v old g =
    Gentle-none table _ id (session_send-Gentle table i t b) g
step_gone table (t, receives i) id h v old g =
    Gentle-none table _ id (session_try_recv-Gentle table i t v.bounded) g
step_gone table (t, locks i) id h v old g =
    Gentle-none table _ id (session_begin_send-Gentle table i t) g
step_gone table (t, unlocks i) id h v old g =
    Gentle-none table _ id (session_end_send-Gentle table i t) g
step_gone table (t, exits) id h v old g =
    at-keep-none (λ (x : Session). x.id) (λ x. not (x.owner == t) && not (served_by x t)) id
      table.sessions g

perform_gone :
    (table : SessionTable) (cs : List (ℕ × Call)) (id : ℕ)
    → table.next_session_id + length cs < 2 ^ 64
    → IsValid table
    → id < table.next_session_id
    → get id table.sessions ≡ none
    → get id (perform table cs).sessions ≡ none
perform_gone table [] id h v old g = g
perform_gone table (c ∷ cs) id h v old g =
    let small : table.next_session_id + 1 < 2 ^ 64 = omega (arith, h) in
    let (w, more, few) = step-IsValid table c small v in
    perform_gone (step table c) cs id (omega (arith, h, few)) w (omega (arith, old, more))
      (step_gone table c id small v old g)

joined_flows :
    (waits w more g rest reads left : Bytes)
    → waits ++ w ≡ g ++ rest
    → rest ++ more ≡ reads ++ left
    → waits ++ (w ++ more) ≡ (g ++ reads) ++ left
joined_flows waits w more g rest reads left e f =
    sym (append_assoc waits w more)
    ∙ ap (λ q. q ++ more) e
    ∙ append_assoc g rest more
    ∙ ap (λ q. g ++ q) f
    ∙ sym (append_assoc g reads left)

-- In a well-formed table, over any history of calls after which a session still lives and the ids have not
-- run out, and in both directions: what waited in the lane, followed by what the one role wrote, is what
-- the other role read, followed by what waits then.
pub perform_is_fifo :
    (table : SessionTable) (cs : List (ℕ × Call)) (id : ℕ) (s after : Session) (role : Role)
    → table.next_session_id + length cs < 2 ^ 64
    → IsValid table
    → get id table.sessions ≡ some s
    → get id (perform table cs).sessions ≡ some after
    → written role s ++ all_written id role table cs
      ≡ all_read id (other role) table cs ++ written role after
perform_is_fifo table [] id s after role h v g e =
    let same_option : some s ≡ some after = sym g ∙ e in
    let same : s ≡ after = ground arith in append-nil (written role s) ∙ ap (written role) same
perform_is_fifo table (c ∷ cs) id s after role h v g e =
    let small : table.next_session_id + 1 < 2 ^ 64 = omega (arith, h) in
    let (w, more, few) = step-IsValid table c small v in
    let fits : (step table c).next_session_id + length cs < 2 ^ 64 = omega (arith, h, few) in
    let (below, key) =
      All-at (λ (x : Session). x.id) (λ x. x.id < table.next_session_id) id table.sessions s g
        v.bounded.ids_below in
    elim (step_flows table c id s small v g) [
      | inl gone ↦
          let old : id < (step table c).next_session_id = omega (arith, below, key, more) in
          let lost : none ≡ some after =
            sym (perform_gone (step table c) cs id fits w old gone) ∙ e in
          absurd cc
      | inr (next, found, flows) ↦
          joined_flows (written role s) (wrote id role table c)
            (all_written id role (step table c) cs) (got id (other role) table c)
            (written role next) (all_read id (other role) (step table c) cs) (written role after)
            (flows role) (perform_is_fifo (step table c) cs id next after role fits w found e)
    ]
