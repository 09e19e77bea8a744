-- ===== src/Kernel/Ipc/Sessions/Examples.antt =====
-- Sessions between threads, and the theorems at them.
use runix.Kernel.Ipc.Sessions.Lanes.{all_read, all_written}
use runix.Kernel.Ipc.Sessions.Fifo.{perform_is_fifo}
use runix.Base.{List, [], arith, length, none, refl, some, ℕ, ◌++◌, ◌+◌, ◌<◌, ◌^◌, ◌∷◌, ◌≡◌}
use runix.Kernel.Ipc.Sessions.{
  Session, SessionTable, fresh_session, get, no_sessions, owner_role, reap_sessions_for,
  server_role, session_accept, session_open, session_send, session_try_recv,
}
use runix.Kernel.Ipc.Sessions.Calls.{Call, accepts, opens, perform, receives, sends}
use runix.Kernel.Ipc.Sessions.History.{IsValid, perform-IsValid}

-- Thread 5 opens two sessions against port 3, thread 6 accepts one and answers in it, thread 5 ends.
abbrev calls : List (ℕ × Call)
calls =
    (5, opens 3)
    ∷ (5, opens 3)
    ∷ (5, sends 1 65)
    ∷ (6, accepts 3)
    ∷ (6, receives 1)
    ∷ (6, sends 1 66)
    ∷ []

abbrev after_calls : SessionTable
after_calls = perform no_sessions calls

two_live : length after_calls.sessions ≡ 2
unfolding session_open session_accept session_send session_try_recv
two_live = refl

-- The owner reads the answer; a third thread reads nothing.
answered :
    ((session_try_recv after_calls 1 5).0 ≡ some 66) × ((session_try_recv after_calls 1 7).0 ≡ none)
unfolding session_open session_accept session_send session_try_recv
answered = (refl, refl)

reaped : (reap_sessions_for after_calls 5).sessions ≡ []
unfolding session_open session_accept session_send session_try_recv reap_sessions_for
reaped = refl

perform-IsValid_example : IsValid (perform no_sessions calls)
perform-IsValid_example = perform-IsValid calls (omega arith)

-- Session 1 is open and accepted; then its sides talk, and a third thread tries to.
abbrev accepted_session : SessionTable
accepted_session = perform no_sessions ((5, opens 3) ∷ (6, accepts 3) ∷ [])

abbrev talk : List (ℕ × Call)
talk = (5, sends 1 65) ∷ (7, sends 1 99) ∷ (5, receives 1) ∷ (6, receives 1) ∷ (6, sends 1 66) ∷ []

abbrev served : Session
served = record (fresh_session 1 3 5) { server = some 6 }

abbrev answered_session : Session
answered_session = record served { server_to_owner = 66 ∷ [] }

accepted-IsValid : IsValid accepted_session
accepted-IsValid = perform-IsValid ((5, opens 3) ∷ (6, accepts 3) ∷ []) (omega arith)

it_is_there : get 1 accepted_session.sessions ≡ some served
unfolding session_open session_accept
it_is_there = refl

it_lives : get 1 (perform accepted_session talk).sessions ≡ some answered_session
unfolding session_open session_accept session_send session_try_recv
it_lives = refl

small : accepted_session.next_session_id + length talk < 2 ^ 64
unfolding session_open session_accept
small = omega arith

perform_is_fifo_example :
    [] ++ all_written 1 owner_role accepted_session talk
    ≡ all_read 1 server_role accepted_session talk ++ []
perform_is_fifo_example =
    perform_is_fifo accepted_session talk 1 served answered_session owner_role small
      accepted-IsValid it_is_there it_lives

what_was_read : all_read 1 server_role accepted_session talk ≡ 65 ∷ []
unfolding session_open session_accept session_send session_try_recv
what_was_read = refl
