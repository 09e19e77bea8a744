-- ===== src/Kernel/Ipc/Messages/Progress.antt =====
-- A thread that waits for the free lock of a port of kernel/src/ipc.rs and a receiver that polls: however
-- the other threads get in between, the message gets through.
use runix.Base.{
  ==_iff, Bool, Bool-cases, Bytes, Bytes-cases, List, [], ap, arith, false, if◌then◌else◌, inl, inr,
  length, refl, subst, suc, sym, true, ℕ, ◌++◌, ◌+◌, ◌<◌, ◌==◌, ◌∙◌, ◌∷◌, ◌≡◌,
}
use runix.Base.Keyed.{updated_here}
use runix.Kernel.Ipc.Ports.{port_count}
use runix.Kernel.Ipc.Messages.{
  Event, World, go_on, goes_on, idle, joined, polls, run, sends, step, takes_up, waits,
}
use runix.Kernel.Ipc.Messages.Passes.{go_on_lock}
use runix.Kernel.Ipc.Messages.InOrder.{IsInOrder, go_on-IsInOrder, stream}
use runix.Kernel.Ipc.Messages.Holding.{
  GetsThrough, GetsThrough-cons, Holds, IsSent, byte_pass, chances, last_pass, other_waits,
  polls-Holds, takes_up-Holds,
}

module _ (port : ℕ) (w : World) (t : ℕ) (m : Bytes) (p : port < port_count)
    (before : stream port w ≡ joined w.finished) where
  rest_is_sent :
      (left : Bytes) (polled : Bool) (now : World) (es : List Event)
      → length left < chances t polled es
      → Holds port w t m left polled now
      → GetsThrough port w t m now es
  unfolding step run
  rest_is_sent left polled now [] enough h = absurd (omega (arith, enough))
  rest_is_sent left polled now (polls ∷ es) enough h =
      GetsThrough-cons port w t m p before now polls es (
        rest_is_sent left true (step port now polls) es enough
          (polls-Holds port w t m p before left polled now h))
  rest_is_sent left polled now (takes_up u n ∷ es) enough h =
      GetsThrough-cons port w t m p before now (takes_up u n) es (
        rest_is_sent left polled (step port now (takes_up u n)) es enough
          (takes_up-Holds port w t m p before left polled now u n h))
  rest_is_sent left polled now (goes_on u ∷ es) enough h = elim (Bool-cases (t == u)) [
    | inr ne ↦
        let same = other_waits port w t m p before left polled now u ne h in
        let more : length left < chances t polled es = ground (arith, enough, ne) in
        GetsThrough-cons port w t m p before now (goes_on u) es (
          rest_is_sent left polled (step port now (goes_on u)) es more
            (subst (Holds port w t m left polled) (sym same) h))
    | inl eq ↦
        let mine = (==_iff t u).0 eq in
        let more : length left < (if polled then 1 else 0) + chances t false es =
          ground (arith, enough, eq) in
        elim (Bytes-cases left) [
          | inl none_left ↦ (
            goes_on u ∷ [],
            es,
            refl,
            subst (λ v. IsSent port w t m (go_on port now v)) mine
                (last_pass port w t m p before polled now
                  (subst (λ l. Holds port w t m l polled now) none_left h)),
          )
          | inr (b, bs, some_left) ↦
              let size : length left ≡ suc (length bs) = ap length some_left in
              let moved =
                byte_pass port w t m p before b bs polled now
                  (subst (λ l. Holds port w t m l polled now) some_left h) in
              GetsThrough-cons port w t m p before now (goes_on u) es (elim moved [
                | inl sent ↦
                    rest_is_sent bs false (go_on port now u) es (ground (arith, more, size))
                      (subst (λ v. Holds port w t m bs false (go_on port now v)) mine sent)
                | inr (none_polled, stays) ↦
                    rest_is_sent (b ∷ bs) false (go_on port now u) es
                      (ground (arith, more, size, none_polled))
                      (subst (λ v. Holds port w t m (b ∷ bs) false (go_on port now v)) mine stays)
              ])
        ]
  ]

-- A thread that waits for the free lock of a port gets its whole message through, whatever the other
-- threads do in between, if it makes, once it has the lock, more passes that follow a poll of the receiver
-- since its pass before than the message has bytes: there is a point by which the message is finished, its
-- bytes have entered the port after those that had entered it, in order and with no other byte, whether
-- received by then or not, and the thread is idle.
pub waiting_message_is_sent :
    (port : ℕ) (w : World) (t : ℕ) (m : Bytes) (es : List Event)
    → port < port_count
    → IsInOrder port w
    → w.ports.send_locks port ≡ false
    → w.senders t ≡ waits m
    → length m < chances t false es
    → (es1 : List Event) × (es2 : List Event) × (goes_on t ∷ es ≡ es1 ++ es2)
      × (let after = run port w es1 in
          (after.finished ≡ w.finished ++ m ∷ [])
          × (stream port after ≡ stream port w ++ m)
          × (after.senders t ≡ idle))
unfolding step
waiting_message_is_sent port w t m es p (room, inr h) free e enough =
    absurd (ground (arith, h.locked))
waiting_message_is_sent port w t m es p (room, inl f) free e enough =
    let g = go_on_lock port w t p m e free in
    GetsThrough-cons port w t m p f.whole w (goes_on t) es (
      rest_is_sent port w t m p f.whole m false (go_on port w t) es enough (record {
        done = [];
        ordered = go_on-IsInOrder port w t p (room, inl f);
        sending = ap (λ (x : World). x.senders t) g ∙ updated_here w.senders t (sends m [] m);
        same_finished = ap (λ (x : World). x.finished) g;
        room = λ no. absurd (ground (arith, no));
      }))
