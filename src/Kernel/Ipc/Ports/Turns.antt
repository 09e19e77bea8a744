-- ===== src/Kernel/Ipc/Ports/Turns.antt =====
-- kernel/src/ipc.rs, the ports: what each pass does to a port that exists, case by case.
use runix.Base.Keyed.{updated}
use runix.Base.{
  Bytes, Bytes-cases, [], arith, false, inl, inr, length, ltb, none, refl, some, true, ℕ, ◌++◌, ◌<◌,
  ◌↔◌, ◌∷◌, ◌≡◌,
}
use runix.Kernel.Ipc.{answer, channel_capacity, yields}
use runix.Kernel.Ipc.Ports.{
  Ports, begin_send, end_send, is_empty, is_valid_port, port_count, recv, send, try_recv,
}

pub valid : (port : ℕ) → port < port_count → is_valid_port port ≡ true
unfolding is_valid_port
valid port p = ground arith

module _ (ports : Ports) (port : ℕ) where
  pub begin_send_held :
      port < port_count → ports.send_locks port ≡ true → begin_send ports port ≡ (yields, ports)
  unfolding begin_send
  begin_send_held p l = rw (valid port p, l) refl

  pub begin_send_free :
      port < port_count
      → ports.send_locks port ≡ false
      → begin_send ports port
        ≡ (answer true, record ports { send_locks = updated ports.send_locks port true })
  unfolding begin_send
  begin_send_free p l = rw (valid port p, l) refl

  pub end_send_frees :
      port < port_count
      → end_send ports port
        ≡ (true, record ports { send_locks = updated ports.send_locks port false })
  unfolding end_send
  end_send_frees p = rw (valid port p) refl

  pub send_full :
      (byte : ℕ)
      → port < port_count
      → ltb (length (ports.channels port)) channel_capacity ≡ false
      → send ports port byte ≡ (yields, ports)
  unfolding send
  send_full byte p l = rw (valid port p, l) refl

  pub send_room :
      (byte : ℕ)
      → port < port_count
      → ltb (length (ports.channels port)) channel_capacity ≡ true
      → send ports port byte ≡ (
        answer true,
        record ports { channels = updated ports.channels port (ports.channels port ++ byte ∷ []) },
      )
  unfolding send
  send_room byte p l = rw (valid port p, l) refl

  pub try_recv-none :
      port < port_count → ports.channels port ≡ [] → try_recv ports port ≡ (none, ports)
  unfolding try_recv
  try_recv-none p e = rw (valid port p, e) refl

  pub try_recv-some :
      (b : ℕ) (bs : Bytes)
      → port < port_count
      → ports.channels port ≡ b ∷ bs
      → try_recv ports port ≡ (some b, record ports { channels = updated ports.channels port bs })
  unfolding try_recv
  try_recv-some b bs p e = rw (valid port p, e) refl

-- At a port that exists, `is_empty` says whether a pass of `recv` yields.
pub is_empty-recv :
    (ports : Ports) (port : ℕ)
    → port < port_count
    → (is_empty ports port ≡ true) ↔ ((recv ports port).0 ≡ yields)
unfolding is_empty recv try_recv
is_empty-recv ports port p = elim (Bytes-cases (ports.channels port)) [
  | inl e ↦ rw (valid port p, e) (λ h. refl, λ h. ground arith)
  | inr (b, bs, e) ↦ rw (valid port p, e) (λ h. absurd (ground arith), λ h. absurd cc)
]
