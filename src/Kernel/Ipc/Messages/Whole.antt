-- ===== src/Kernel/Ipc/Messages/Whole.antt =====
-- Threads that send to a port of kernel/src/ipc.rs, and the receiver: every history.
use mathlib.Core.List.{append_assoc}
use runix.Base.Keyed.{updated, updated_here}
use runix.Base.{
  ==_iff, Bool-cases, Bytes, Bytes-cases, List, [], ap, arith, false, inl, inr, length, refl, sym,
  ℕ, ◌++◌, ◌<◌, ◌==◌, ◌∙◌, ◌∷◌, ◌≡◌, ◌≤◌,
}
use runix.Kernel.Ipc.{channel_capacity}
use runix.Kernel.Ipc.Ports.{port_count}
use runix.Kernel.Ipc.Ports.Turns.{try_recv-none, try_recv-some}
use runix.Kernel.Ipc.Messages.{
  Event, Sender, World, goes_on, idle, polls, run, sends, start, step, takes_up, waits,
}
use runix.Kernel.Ipc.Messages.InOrder.{IsInOrder, Sender-cases, go_on-IsInOrder, is_sending, stream}

waits_silent :
    (senders : ℕ → Sender) (t : ℕ) (m : Bytes) (u : ℕ)
    → is_sending (senders u) ≡ false
    → is_sending (updated senders t (waits m) u) ≡ false
waits_silent senders t m u q = elim (Bool-cases (t == u)) [ inl e ↦ rw (e) refl | inr e ↦ rw (e) q ]

module _ (port : ℕ) (w : World) (p : port < port_count) where
  takes_up-IsInOrder :
      (t : ℕ) (m : Bytes)
      → w.senders t ≡ idle
      → IsInOrder port w
      → IsInOrder port (record w { senders = updated w.senders t (waits m) })
  takes_up-IsInOrder t m e (room, inl f) = (
    room,
    inl (record {
      unlocked = f.unlocked;
      nobody = λ u. waits_silent w.senders t m u (f.nobody u);
      whole = f.whole;
    }),
  )
  takes_up-IsInOrder t m e (room, inr h) = elim (Bool-cases (t == h.holder)) [
    | inl q ↦
        let clash : sends h.message h.done h.left ≡ idle =
          sym h.sending ∙ ap w.senders (sym ((==_iff t h.holder).0 q)) ∙ e in
        absurd cc
    | inr q ↦ (
      room,
      inr (record {
        locked = h.locked;
        holder = h.holder;
        message = h.message;
        done = h.done;
        left = h.left;
        sending = rw (q) h.sending;
        parts = h.parts;
        nobody_else = λ u o. waits_silent w.senders t m u (h.nobody_else u o);
        so_far = h.so_far;
      }),
    )
  ]

  -- The byte that is received leaves the stream as it is.
  moved :
      (b : ℕ) (bs : Bytes)
      → w.ports.channels port ≡ b ∷ bs
      → (w.received ++ b ∷ []) ++ updated w.ports.channels port bs port ≡ stream port w
  moved b bs e =
      ap (λ q. (w.received ++ b ∷ []) ++ q) (updated_here w.ports.channels port bs)
      ∙ append_assoc w.received (b ∷ []) bs
      ∙ ap (λ q. w.received ++ q) (sym e)

  polls-IsInOrder : IsInOrder port w → IsInOrder port (step port w polls)
  unfolding step
  polls-IsInOrder (room, v) = elim (Bytes-cases (w.ports.channels port)) [
    | inl e ↦ rw (try_recv-none w.ports port p e) (room, v)
    | inr (b, bs, e) ↦
        let flow = moved b bs e in
        let fits : length (updated w.ports.channels port bs port) ≤ channel_capacity =
          rw (updated_here w.ports.channels port bs) (omega (arith, ap length e, room)) in
        rw (try_recv-some w.ports port b bs p e) (
          fits,
          elim v [
            | inl f ↦
                inl (record { unlocked = f.unlocked; nobody = f.nobody; whole = flow ∙ f.whole })
            | inr h ↦ inr (record {
              locked = h.locked;
              holder = h.holder;
              message = h.message;
              done = h.done;
              left = h.left;
              sending = h.sending;
              parts = h.parts;
              nobody_else = h.nobody_else;
              so_far = flow ∙ h.so_far;
            })
          ],
        )
  ]

  pub step-IsInOrder : (e : Event) → IsInOrder port w → IsInOrder port (step port w e)
  unfolding step
  step-IsInOrder (takes_up t m) v = elim (Sender-cases (w.senders t)) [
    | inl e ↦ rw (step, e) (takes_up-IsInOrder t m e v)
    | inr (inl (n, e)) ↦ rw (step, e) v
    | inr (inr (n, done, left, e)) ↦ rw (step, e) v
  ]
  step-IsInOrder (goes_on u) v = go_on-IsInOrder port w u p v
  step-IsInOrder polls v = polls-IsInOrder v

pub run_from-IsInOrder :
    (port : ℕ) (w : World) (es : List Event)
    → port < port_count
    → IsInOrder port w
    → IsInOrder port (run port w es)
unfolding run
run_from-IsInOrder port w [] p v = v
run_from-IsInOrder port w (e ∷ es) p v =
    run_from-IsInOrder port (step port w e) es p (step-IsInOrder port w p e v)

-- However the threads that send messages to a port, under its lock, and the receiver take turns: the bytes
-- that entered the port are the finished messages, whole and one after the other, followed by what the
-- one thread that holds the lock has sent of its message; and at most 32 bytes wait.
pub run-IsInOrder :
    (port : ℕ) (es : List Event) → port < port_count → IsInOrder port (run port start es)
run-IsInOrder port es p =
    run_from-IsInOrder port start es p
      (omega arith, inl (record { unlocked = refl; nobody = λ u. refl; whole = refl }))
