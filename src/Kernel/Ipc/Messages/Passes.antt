-- ===== src/Kernel/Ipc/Messages/Passes.antt =====
-- What a pass of a thread does to the world of kernel/src/ipc.rs, case by case.
use runix.Base.Keyed.{updated}
use runix.Base.{Bytes, [], false, length, ltb, refl, true, ℕ, ◌++◌, ◌<◌, ◌∷◌, ◌≡◌}
use runix.Kernel.Ipc.{channel_capacity}
use runix.Kernel.Ipc.Ports.{port_count}
use runix.Kernel.Ipc.Ports.Turns.{
  begin_send_free, begin_send_held, end_send_frees, send_full, send_room,
}
use runix.Kernel.Ipc.Messages.{World, go_on, idle, sends, waits}

module _ (port : ℕ) (w : World) (t : ℕ) (p : port < port_count) where
  pub go_on_idle : w.senders t ≡ idle → go_on port w t ≡ w
  unfolding go_on
  go_on_idle e = rw (go_on, e) refl

  pub go_on_wait :
      (m : Bytes) → w.senders t ≡ waits m → w.ports.send_locks port ≡ true → go_on port w t ≡ w
  unfolding go_on
  go_on_wait m e l = rw (go_on, e, begin_send_held w.ports port p l) refl

  pub go_on_lock :
      (m : Bytes)
      → w.senders t ≡ waits m
      → w.ports.send_locks port ≡ false
      → go_on port w t ≡ record w {
        ports = record w.ports { send_locks = updated w.ports.send_locks port true };
        senders = updated w.senders t (sends m [] m);
      }
  unfolding go_on
  go_on_lock m e l = rw (go_on, e, begin_send_free w.ports port p l) refl

  pub go_on_end :
      (m done : Bytes)
      → w.senders t ≡ sends m done []
      → go_on port w t ≡ record w {
        ports = record w.ports { send_locks = updated w.ports.send_locks port false };
        senders = updated w.senders t idle;
        finished = w.finished ++ m ∷ [];
      }
  unfolding go_on
  go_on_end m done e = rw (go_on, e, end_send_frees w.ports port p) refl

  pub go_on_full :
      (m done : Bytes) (b : ℕ) (bs : Bytes)
      → w.senders t ≡ sends m done (b ∷ bs)
      → ltb (length (w.ports.channels port)) channel_capacity ≡ false
      → go_on port w t ≡ w
  unfolding go_on
  go_on_full m done b bs e l = rw (go_on, e, send_full w.ports port b p l) refl

  pub go_on_send :
      (m done : Bytes) (b : ℕ) (bs : Bytes)
      → w.senders t ≡ sends m done (b ∷ bs)
      → ltb (length (w.ports.channels port)) channel_capacity ≡ true
      → go_on port w t ≡ record w {
        ports = record w.ports {
          channels = updated w.ports.channels port (w.ports.channels port ++ b ∷ []);
        };
        senders = updated w.senders t (sends m (done ++ b ∷ []) bs);
      }
  unfolding go_on
  go_on_send m done b bs e l = rw (go_on, e, send_room w.ports port b p l) refl
