-- ===== src/Kernel/Ipc/Messages/Holding.antt =====
-- A thread in the middle of a message to a port of kernel/src/ipc.rs: what each event does to it.
use mathlib.Core.List.{append-nil}
use runix.Base.{
  ==_iff, Bool, Bool-cases, Bytes, Bytes-cases, List, [], ap, arith, false, if◌then◌else◌, inl, inr,
  length, ltb, lt→ltb, refl, subst, sym, true, ℕ, ◌++◌, ◌+◌, ◌<◌, ◌==◌, ◌∙◌, ◌∷◌, ◌≡◌, ◌≤◌, ◌⊎◌,
}
use runix.Base.Keyed.{updated, updated_here}
use runix.Kernel.Ipc.{channel_capacity}
use runix.Kernel.Ipc.Ports.{port_count}
use runix.Kernel.Ipc.Ports.Turns.{try_recv-none, try_recv-some}
use runix.Kernel.Ipc.Messages.{
  Event, Sender, World, go_on, goes_on, idle, joined, polls, run, sends, step, takes_up, waits,
}
use runix.Kernel.Ipc.Messages.Passes.{go_on_end, go_on_full, go_on_idle, go_on_send, go_on_wait}
use runix.Kernel.Ipc.Messages.InOrder.{IsInOrder, Sender-cases, go_on-IsInOrder, sender_of, stream}
use runix.Kernel.Ipc.Messages.Whole.{step-IsInOrder}

-- How many passes of the thread follow a poll since its pass before; the flag says whether there was one
-- already.
abbrev pub chances : ℕ → Bool → List Event → ℕ
chances t polled [] = 0
chances t polled (polls ∷ es) = chances t true es
chances t polled (takes_up u m ∷ es) = chances t polled es
chances t polled (goes_on u ∷ es) =
    let mine = chances t false es in
    let other = chances t polled es in if t == u then (if polled then 1 else 0) + mine else other

-- What a poll leaves has room for a byte.
poll_makes_room :
    (port : ℕ) (w : World)
    → port < port_count
    → length (w.ports.channels port) ≤ channel_capacity
    → (ltb (length ((step port w polls).ports.channels port)) channel_capacity ≡ true)
      × ((step port w polls).senders ≡ w.senders)
      × ((step port w polls).finished ≡ w.finished)
unfolding step
poll_makes_room port w p room = elim (Bytes-cases (w.ports.channels port)) [
  | inl e ↦ rw (try_recv-none w.ports port p e) (rw (e) refl, refl, refl)
  | inr (b, bs, e) ↦ rw (try_recv-some w.ports port b bs p e) (
    rw (updated_here w.ports.channels port bs)
        (lt→ltb (length bs) channel_capacity (omega (arith, ap length e, room))),
    refl,
    refl,
  )
]

-- What is reached when the message is over: by then it is finished, after the messages that were, its
-- bytes have entered the port after those that had, none between them, and the thread is idle.
abbrev pub IsSent : ℕ → World → ℕ → Bytes → World → Type 0
IsSent port w t m after =
    (after.finished ≡ w.finished ++ m ∷ [])
    × (stream port after ≡ stream port w ++ m)
    × (after.senders t ≡ idle)

-- A run has a first part after which the message is over.
abbrev pub GetsThrough : ℕ → World → ℕ → Bytes → World → List Event → Type 0
GetsThrough port w t m now es =
    (es1 : List Event) × (es2 : List Event) × (es ≡ es1 ++ es2)
    × IsSent port w t m (run port now es1)

-- The thread is in the middle of its message; if the receiver polled since its last pass, there is room.
pub record Holds (port : ℕ) (w : World) (t : ℕ) (m left : Bytes) (polled : Bool) (now : World)
    : Type 0 where
  pub done : Bytes
  pub ordered : IsInOrder port now
  pub sending : now.senders t ≡ sends m done left
  pub same_finished : now.finished ≡ w.finished
  pub room : polled ≡ true → ltb (length (now.ports.channels port)) channel_capacity ≡ true

module _ (port : ℕ) (w : World) (t : ℕ) (m : Bytes) (p : port < port_count)
    (before : stream port w ≡ joined w.finished) where
  pub GetsThrough-cons :
      (now : World) (e : Event) (es : List Event)
      → GetsThrough port w t m (step port now e) es
      → GetsThrough port w t m now (e ∷ es)
  unfolding run
  GetsThrough-cons now e es (es1, es2, parts, sent) = (e ∷ es1, es2, ap (λ r. e ∷ r) parts, sent)

  -- Another thread that goes on changes nothing while the lock is held.
  pub other_waits :
      (left : Bytes) (polled : Bool) (now : World) (u : ℕ)
      → (t == u) ≡ false
      → Holds port w t m left polled now
      → go_on port now u ≡ now
  other_waits left polled now u ne h =
      let (lock, parts, others, flow) = sender_of port now t m h.done left h.sending h.ordered.1 in
      elim (Sender-cases (now.senders u)) [
        | inl e ↦ go_on_idle port now u p e
        | inr (inl (n, e)) ↦ go_on_wait port now u p n e lock
        | inr (inr (n, done, rest, e)) ↦
            let quiet_one = others u ne in absurd (ground (arith, e, quiet_one))
      ]

  pub takes_up-Holds :
      (left : Bytes) (polled : Bool) (now : World) (u : ℕ) (n : Bytes)
      → Holds port w t m left polled now
      → Holds port w t m left polled (step port now (takes_up u n))
  unfolding step
  takes_up-Holds left polled now u n h =
      let kept = step-IsInOrder port now p (takes_up u n) h.ordered in
      elim (Sender-cases (now.senders u)) [
        | inl e ↦
            let g : step port now (takes_up u n)
                ≡ record now { senders = updated now.senders u (waits n) } =
              rw (step, e) refl in
            let apart : (u == t) ≡ false = elim (Bool-cases (u == t)) [
              | inr ne ↦ ne
              | inl eq ↦
                  let clash : sends m h.done left ≡ idle =
                    sym h.sending ∙ ap now.senders (sym ((==_iff u t).0 eq)) ∙ e in
                  absurd cc
            ] in
            record {
              done = h.done;
              ordered = kept;
              sending = ap (λ (x : World). x.senders t) g ∙ rw apart h.sending;
              same_finished = ap (λ (x : World). x.finished) g ∙ h.same_finished;
              room =
                  subst
                    (λ (x : World).
                      polled ≡ true → ltb (length (x.ports.channels port)) channel_capacity ≡ true)
                    (sym g) h.room;
            }
        | inr (inl (k, e)) ↦
            let g : step port now (takes_up u n) ≡ now = rw (step, e) refl in
            subst (Holds port w t m left polled) (sym g) h
        | inr (inr (k, done, rest, e)) ↦
            let g : step port now (takes_up u n) ≡ now = rw (step, e) refl in
            subst (Holds port w t m left polled) (sym g) h
      ]

  pub polls-Holds :
      (left : Bytes) (polled : Bool) (now : World)
      → Holds port w t m left polled now
      → Holds port w t m left true (step port now polls)
  polls-Holds left polled now h =
      let (space, same, fin) = poll_makes_room port now p h.ordered.0 in
      record {
        done = h.done;
        ordered = step-IsInOrder port now p polls h.ordered;
        sending = ap (λ (s : ℕ → Sender). s t) same ∙ h.sending;
        same_finished = fin ∙ h.same_finished;
        room = λ yes. space;
      }

  -- A pass with nothing left ends the message.
  pub last_pass :
      (polled : Bool) (now : World)
      → Holds port w t m [] polled now
      → IsSent port w t m (go_on port now t)
  last_pass polled now h =
      let (lock, parts, others, flow) = sender_of port now t m h.done [] h.sending h.ordered.1 in
      rw (go_on_end port now t p m h.done h.sending) (
        ap (λ ms. ms ++ m ∷ []) h.same_finished,
        flow
            ∙ ap (λ ms. joined ms ++ h.done) h.same_finished
            ∙ ap (λ d. joined w.finished ++ d) (sym (append-nil h.done) ∙ parts)
            ∙ ap (λ q. q ++ m) (sym before),
        updated_here now.senders t idle,
      )

  -- A pass with a byte left sends it if there is room, and changes nothing if there is none.
  pub byte_pass :
      (b : ℕ) (bs : Bytes) (polled : Bool) (now : World)
      → Holds port w t m (b ∷ bs) polled now
      → Holds port w t m bs false (go_on port now t)
        ⊎ ((polled ≡ false) × Holds port w t m (b ∷ bs) false (go_on port now t))
  byte_pass b bs polled now h =
      elim (Bool-cases (ltb (length (now.ports.channels port)) channel_capacity)) [
        | inl space ↦
            let g = go_on_send port now t p m h.done b bs h.sending space in
            inl (record {
              done = h.done ++ b ∷ [];
              ordered = go_on-IsInOrder port now t p h.ordered;
              sending =
                  ap (λ (x : World). x.senders t) g
                  ∙ updated_here now.senders t (sends m (h.done ++ b ∷ []) bs);
              same_finished = ap (λ (x : World). x.finished) g ∙ h.same_finished;
              room = λ no. absurd (ground (arith, no));
            })
        | inr full ↦
            let g = go_on_full port now t p m h.done b bs h.sending full in
            inr (
              ground (arith, h.room),
              record {
                done = h.done;
                ordered = go_on-IsInOrder port now t p h.ordered;
                sending = ap (λ (x : World). x.senders t) g ∙ h.sending;
                same_finished = ap (λ (x : World). x.finished) g ∙ h.same_finished;
                room = λ no. absurd (ground (arith, no));
              },
            )
      ]
