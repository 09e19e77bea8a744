-- ===== src/Kernel/Ipc.antt =====
-- kernel/src/ipc.rs: the fixed ports and the sessions between threads. A call that spins until it can
-- answer is modelled by one pass of its loop, which answers or yields to the other threads.
pub mod Ports
pub mod Messages
use runix.Base.{ℕ}
pub mod Sessions

abbrev pub channel_capacity : ℕ
channel_capacity = 32

-- What one pass of a spinning loop comes to: its answer, or `yield_now()` and another pass.
pub data Turn (A : Type 0) : Type 0 where
  answer : A → Turn A
  yields : Turn A
