-- ===== src/Kernel/Ipc/Messages.antt =====
-- Threads that send whole messages to a port of kernel/src/ipc.rs, interleaved in any order, and what
-- reaches the receiver.
mod Passes
pub mod InOrder
pub mod Whole
pub mod Holding
pub mod Progress
mod Examples
use runix.Base.Keyed.{updated}
use runix.Base.{Bool, Bytes, List, Option, [], if◌then◌else◌, none, some, ℕ, ◌++◌, ◌∷◌}
use runix.Kernel.Ipc.{Turn, answer, yields}
use runix.Kernel.Ipc.Ports.{Ports, begin_send, end_send, quiet, send, try_recv}

-- What a thread is about: nothing; the lock for a message; the rest of a message, of which the bytes
-- before it are sent.
pub data Sender : Type 0 where
  idle : Sender
  waits : Bytes → Sender
  sends : Bytes → Bytes → Bytes → Sender

-- The ports and the threads, with the bytes received so far and the messages whose sending is over.
pub record World : Type 0 where
  pub ports : Ports
  pub senders : ℕ → Sender
  pub received : Bytes
  pub finished : List Bytes

abbrev pub start : World
start = record { ports = quiet; senders = λ thread. idle; received = []; finished = [] }

-- A thread takes up a message, a thread makes its next pass, or the receiver polls.
pub data Event : Type 0 where
  takes_up : ℕ → Bytes → Event
  goes_on : ℕ → Event
  polls : Event

-- The bytes of messages, one after the other.
abbrev pub joined : List Bytes → Bytes
joined [] = []
joined (m ∷ ms) = m ++ joined ms

abbrev set_sender : World → ℕ → Sender → World
set_sender w t s = record w { senders = updated w.senders t s }

-- What a pass of a thread comes to, with what the thread is about if it is granted.
abbrev after_pass : World → ℕ → Sender → Turn Bool × Ports → World
after_pass w t next (yields, after) = record w { ports = after }
after_pass w t next (answer granted, after) =
    set_sender (record w { ports = after }) t (if granted then next else idle)

abbrev after_poll : World → Option ℕ × Ports → World
after_poll w (none, after) = record w { ports = after }
after_poll w (some b, after) = record w { ports = after; received = w.received ++ b ∷ [] }

pub go_on : ℕ → World → ℕ → World
go_on port w t = elim (w.senders t) [
  | idle ↦ w
  | waits m ↦ after_pass w t (sends m [] m) (begin_send w.ports port)
  | sends m done [] ↦ record w {
    ports = (end_send w.ports port).1;
    senders = updated w.senders t idle;
    finished = w.finished ++ m ∷ [];
  }
  | sends m done (b ∷ bs) ↦ after_pass w t (sends m (done ++ b ∷ []) bs) (send w.ports port b)
]

pub step : ℕ → World → Event → World
unfolding go_on
step port w (takes_up t m) = elim (w.senders t) [
  | idle ↦ set_sender w t (waits m)
  | waits n ↦ w
  | sends n done left ↦ w
]
step port w (goes_on t) = go_on port w t
step port w polls = after_poll w (try_recv w.ports port)

pub run : ℕ → World → List Event → World
unfolding step
run port w [] = w
run port w (e ∷ es) = run port (step port w e) es
