-- ===== src/Kernel/Ipc/Messages/Examples.antt =====
-- Two threads that send to a port, and the theorems at them.
use runix.Base.{List, [], arith, false, refl, ◌++◌, ◌∷◌, ◌≡◌}
use runix.Kernel.Ipc.Ports.{begin_send, end_send, quiet, send, try_recv}
use runix.Kernel.Ipc.{answer}
use runix.Kernel.Ipc.Messages.{Event, World, goes_on, idle, polls, run, start, takes_up}
use runix.Kernel.Ipc.Messages.InOrder.{IsInOrder, stream}
use runix.Kernel.Ipc.Messages.Whole.{run-IsInOrder}
use runix.Kernel.Ipc.Messages.Progress.{waiting_message_is_sent}

-- Thread 2 asks for the lock while thread 1 is in the middle of its message.
abbrev mixed : List Event
mixed =
    takes_up 1 (10 ∷ 11 ∷ [])
    ∷ takes_up 2 (20 ∷ [])
    ∷ goes_on 1
    ∷ goes_on 1
    ∷ goes_on 2
    ∷ polls
    ∷ goes_on 1
    ∷ goes_on 1
    ∷ goes_on 2
    ∷ goes_on 2
    ∷ []

one_after_the_other : (run 3 start mixed).ports.channels 3 ≡ 11 ∷ 20 ∷ []
unfolding run try_recv begin_send end_send send
one_after_the_other = refl

no_such_port : (send quiet 16 5).0 ≡ answer false
unfolding send
no_such_port = refl

run-IsInOrder_example : IsInOrder 3 (run 3 start mixed)
run-IsInOrder_example = run-IsInOrder 3 mixed (omega arith)

-- Thread 7 waits for the free lock of port 3, with two bytes to send.
abbrev waiting : World
waiting = run 3 start (takes_up 7 (5 ∷ 6 ∷ []) ∷ [])

-- Thread 8 takes up a message and tries to get the lock in between.
abbrev later : List Event
later =
    polls
    ∷ goes_on 7
    ∷ takes_up 8 (9 ∷ [])
    ∷ goes_on 8
    ∷ polls
    ∷ goes_on 7
    ∷ goes_on 8
    ∷ polls
    ∷ goes_on 7
    ∷ goes_on 8
    ∷ []

waiting_message_is_sent_example :
    (es1 : List Event) × (es2 : List Event) × (goes_on 7 ∷ later ≡ es1 ++ es2)
    × (let after = run 3 waiting es1 in
        (after.finished ≡ waiting.finished ++ (5 ∷ 6 ∷ []) ∷ [])
        × (stream 3 after ≡ stream 3 waiting ++ 5 ∷ 6 ∷ [])
        × (after.senders 7 ≡ idle))
unfolding run
waiting_message_is_sent_example =
    waiting_message_is_sent 3 waiting 7 (5 ∷ 6 ∷ []) later (omega arith)
      (run-IsInOrder 3 (takes_up 7 (5 ∷ 6 ∷ []) ∷ []) (omega arith)) refl refl (omega arith)
