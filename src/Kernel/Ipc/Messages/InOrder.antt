-- ===== src/Kernel/Ipc/Messages/InOrder.antt =====
-- Threads that send whole messages to a port of kernel/src/ipc.rs: their bytes do not mix.
use mathlib.Core.List.{append-nil, append_assoc}
use runix.Kernel.Ipc.Messages.Passes.{
  go_on_end, go_on_full, go_on_idle, go_on_lock, go_on_send, go_on_wait,
}
use runix.Base.Keyed.{updated, updated_here}
use runix.Base.{
  ==_iff, Bool, Bool-cases, Bytes, List, [], ap, arith, false, inl, inr, length, length-append, ltb,
  ltb→lt, refl, subst, sym, true, ℕ, ◌++◌, ◌<◌, ◌==◌, ◌∙◌, ◌∷◌, ◌≡◌, ◌≤◌, ◌⊎◌,
}
use runix.Kernel.Ipc.{channel_capacity}
use runix.Kernel.Ipc.Ports.{port_count}
use runix.Kernel.Ipc.Messages.{Sender, World, go_on, idle, joined, sends, waits}

abbrev pub is_sending : Sender → Bool
is_sending idle = false
is_sending (waits m) = false
is_sending (sends m done left) = true

-- The bytes that entered the port: those that were received and those that wait.
abbrev pub stream : ℕ → World → Bytes
stream port w = w.received ++ w.ports.channels port

-- Nobody is in the middle of a message: the stream is the messages that are finished.
pub record Free (port : ℕ) (w : World) : Type 0 where
  pub unlocked : w.ports.send_locks port ≡ false
  pub nobody : (u : ℕ) → is_sending (w.senders u) ≡ false
  pub whole : stream port w ≡ joined w.finished

-- One thread is: the stream is the finished messages and what this thread has sent of its own.
pub record Held (port : ℕ) (w : World) : Type 0 where
  pub locked : w.ports.send_locks port ≡ true
  pub holder : ℕ
  pub message : Bytes
  pub done : Bytes
  pub left : Bytes
  pub sending : w.senders holder ≡ sends message done left
  pub parts : done ++ left ≡ message
  pub nobody_else : (u : ℕ) → (holder == u) ≡ false → is_sending (w.senders u) ≡ false
  pub so_far : stream port w ≡ joined w.finished ++ done

-- The messages that entered the port stand in it whole and one after the other, but for the one that is
-- being sent, of which a first part does.
abbrev pub IsInOrder : ℕ → World → Type 0
IsInOrder port w = (length (w.ports.channels port) ≤ channel_capacity) × (Free port w ⊎ Held port w)

pub Sender-cases :
    (s : Sender)
    → (s ≡ idle)
      ⊎ (((m : Bytes) × (s ≡ waits m))
          ⊎ ((m : Bytes) × (done : Bytes) × (left : Bytes) × (s ≡ sends m done left)))
Sender-cases idle = inl refl
Sender-cases (waits m) = inr (inl (m, refl))
Sender-cases (sends m done left) = inr (inr (m, done, left, refl))

-- The thread that sends is the one that holds the lock, with the parts of its message.
pub sender_of :
    (port : ℕ) (w : World) (t : ℕ) (m done left : Bytes)
    → w.senders t ≡ sends m done left
    → Free port w ⊎ Held port w
    → (w.ports.send_locks port ≡ true)
      × (done ++ left ≡ m)
      × ((u : ℕ) → (t == u) ≡ false → is_sending (w.senders u) ≡ false)
      × (stream port w ≡ joined w.finished ++ done)
sender_of port w t m done left e (inl f) = absurd (ground (arith, f.nobody t))
sender_of port w t m done left e (inr h) = elim (Bool-cases (h.holder == t)) [
  | inr o ↦ absurd (ground (arith, h.nobody_else t o))
  | inl o ↦
      let same : h.holder ≡ t = (==_iff h.holder t).0 o in
      let parts : sends h.message h.done h.left ≡ sends m done left =
        sym h.sending ∙ ap w.senders same ∙ e in
      let d : h.done ≡ done = cc in
      let l : h.left ≡ left = cc in
      let msg : h.message ≡ m = cc in
      let rest = h.parts in
      let flow = h.so_far in
      (
        h.locked,
        rw (sym d, sym l, sym msg) rest,
        λ u q. h.nobody_else u (rw (same) q),
        rw (sym d) flow,
      )
]

-- The others do not send, and `t` is set to what sends no more.
quiet_again :
    (senders : ℕ → Sender) (t : ℕ) (s : Sender)
    → is_sending s ≡ false
    → ((u : ℕ) → (t == u) ≡ false → is_sending (senders u) ≡ false)
    → (u : ℕ) → is_sending (updated senders t s u) ≡ false
quiet_again senders t s q others u = elim (Bool-cases (t == u)) [
  | inl e ↦ rw (e) q
  | inr e ↦ rw (e) (others u e)
]

quiet_others :
    (senders : ℕ → Sender) (t : ℕ) (s : Sender)
    → ((u : ℕ) → (t == u) ≡ false → is_sending (senders u) ≡ false)
    → (u : ℕ) → (t == u) ≡ false
    → is_sending (updated senders t s u) ≡ false
quiet_others senders t s others u e = rw (e) (others u e)

pub joined-push : (ms : List Bytes) (m : Bytes) → joined (ms ++ m ∷ []) ≡ joined ms ++ m
joined-push [] m = append-nil m
joined-push (n ∷ ms) m = ap (λ r. n ++ r) (joined-push ms m) ∙ sym (append_assoc n (joined ms) m)

module _ (port : ℕ) (w : World) (t : ℕ) (p : port < port_count) where
  lock-IsInOrder :
      (m : Bytes)
      → w.senders t ≡ waits m
      → w.ports.send_locks port ≡ false
      → IsInOrder port w
      → IsInOrder port (go_on port w t)
  lock-IsInOrder m e l (room, inr h) = absurd (ground (arith, h.locked))
  lock-IsInOrder m e l (room, inl f) = rw (go_on_lock port w t p m e l) (
    room,
    inr (record {
      locked = updated_here w.ports.send_locks port true;
      holder = t;
      message = m;
      done = [];
      left = m;
      sending = updated_here w.senders t (sends m [] m);
      parts = refl;
      nobody_else = quiet_others w.senders t (sends m [] m) (λ u q. f.nobody u);
      so_far = f.whole ∙ sym (append-nil (joined w.finished));
    }),
  )

  end-IsInOrder :
      (m done : Bytes)
      → w.senders t ≡ sends m done []
      → IsInOrder port w
      → IsInOrder port (go_on port w t)
  end-IsInOrder m done e (room, v) =
      let (l, parts, others, flow) = sender_of port w t m done [] e v in
      rw (go_on_end port w t p m done e) (
        room,
        inl (record {
          unlocked = updated_here w.ports.send_locks port false;
          nobody = quiet_again w.senders t idle refl others;
          whole =
              flow
              ∙ ap (λ d. joined w.finished ++ d) (sym (append-nil done) ∙ parts)
              ∙ sym (joined-push w.finished m);
        }),
      )

  send-IsInOrder :
      (m done : Bytes) (b : ℕ) (bs : Bytes)
      → w.senders t ≡ sends m done (b ∷ bs)
      → ltb (length (w.ports.channels port)) channel_capacity ≡ true
      → IsInOrder port w
      → IsInOrder port (go_on port w t)
  send-IsInOrder m done b bs e l (room, v) =
      let (lock, parts, others, flow) = sender_of port w t m done (b ∷ bs) e v in
      rw (go_on_send port w t p m done b bs e l) (
        subst (λ q. length q ≤ channel_capacity)
            (sym (updated_here w.ports.channels port (w.ports.channels port ++ b ∷ [])))
            (omega (arith, length-append (w.ports.channels port) (b ∷ []), ltb→lt _ _ l)),
        inr (record {
          locked = lock;
          holder = t;
          message = m;
          done = done ++ b ∷ [];
          left = bs;
          sending = updated_here w.senders t (sends m (done ++ b ∷ []) bs);
          parts = append_assoc done (b ∷ []) bs ∙ parts;
          nobody_else = quiet_others w.senders t (sends m (done ++ b ∷ []) bs) others;
          so_far =
              ap (λ q. w.received ++ q)
                (updated_here w.ports.channels port (w.ports.channels port ++ b ∷ []))
              ∙ sym (append_assoc w.received (w.ports.channels port) (b ∷ []))
              ∙ ap (λ q. q ++ b ∷ []) flow
              ∙ append_assoc (joined w.finished) done (b ∷ []);
        }),
      )

  pub go_on-IsInOrder : IsInOrder port w → IsInOrder port (go_on port w t)
  go_on-IsInOrder v = elim (Sender-cases (w.senders t)) [
    | inl e ↦ rw (go_on_idle port w t p e) v
    | inr (inl (m, e)) ↦ elim (Bool-cases (w.ports.send_locks port)) [
      | inl l ↦ rw (go_on_wait port w t p m e l) v
      | inr l ↦ lock-IsInOrder m e l v
    ]
    | inr (inr (m, done, [], e)) ↦ end-IsInOrder m done e v
    | inr (inr (m, done, b ∷ bs, e)) ↦
        elim (Bool-cases (ltb (length (w.ports.channels port)) channel_capacity)) [
          | inl l ↦ send-IsInOrder m done b bs e l v
          | inr l ↦ rw (go_on_full port w t p m done b bs e l) v
        ]
  ]
