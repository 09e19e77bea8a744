-- ===== src/Kernel/Ipc/Ports.antt =====
-- kernel/src/ipc.rs, the ports: byte channels with a number, each with the lock that a sender holds for
-- the length of a message.
pub mod Turns
use runix.Base.Keyed.{updated}
use runix.Base.{
  Bool, Bytes, Option, [], false, if◌then◌else◌, length, ltb, none, not, some, true, ℕ, ◌++◌, ◌==◌,
  ◌||◌, ◌∷◌,
}
use runix.Kernel.Ipc.{Turn, answer, channel_capacity, yields}

abbrev pub port_count : ℕ
port_count = 16

-- `CHANNELS` and `SEND_LOCKS`; only the entries below `port_count` are used.
pub record Ports : Type 0 where
  pub channels : ℕ → Bytes
  pub send_locks : ℕ → Bool

abbrev pub quiet : Ports
quiet = record { channels = λ port. []; send_locks = λ port. false }

pub is_valid_port : ℕ → Bool
is_valid_port port = ltb port port_count

-- One pass of `begin_send`.
unfoldable pub begin_send : Ports → ℕ → Turn Bool × Ports
unfolding is_valid_port
begin_send ports port =
    if is_valid_port port
    then (if ports.send_locks port
        then (yields, ports)
        else (answer true, record ports { send_locks = updated ports.send_locks port true }))
    else (answer false, ports)

unfoldable pub end_send : Ports → ℕ → Bool × Ports
unfolding is_valid_port
end_send ports port =
    if is_valid_port port
    then (true, record ports { send_locks = updated ports.send_locks port false })
    else (false, ports)

-- One pass of `send`.
unfoldable pub send : Ports → ℕ → ℕ → Turn Bool × Ports
unfolding is_valid_port
send ports port byte =
    if is_valid_port port
    then (if ltb (length (ports.channels port)) channel_capacity
        then (
          answer true,
          record ports {
            channels = updated ports.channels port (ports.channels port ++ byte ∷ []);
          },
        )
        else (yields, ports))
    else (answer false, ports)

-- `pop_front` of the queue of a port.
popped : Ports → ℕ → Bytes → Option ℕ × Ports
popped ports port [] = (none, ports)
popped ports port (b ∷ bs) = (some b, record ports { channels = updated ports.channels port bs })

unfoldable pub try_recv : Ports → ℕ → Option ℕ × Ports
unfolding is_valid_port popped
try_recv ports port =
    if is_valid_port port then popped ports port (ports.channels port) else (none, ports)

pub is_empty : Ports → ℕ → Bool
unfolding is_valid_port
is_empty ports port = not (is_valid_port port) || length (ports.channels port) == 0

-- What `recv` does with what `try_recv` finds.
abbrev received_or_yields : Option ℕ × Ports → Turn (Option ℕ) × Ports
received_or_yields (some b, after) = (answer (some b), after)
received_or_yields (none, after) = (yields, after)

-- One pass of `recv`.
pub recv : Ports → ℕ → Turn (Option ℕ) × Ports
unfolding is_valid_port try_recv
recv ports port =
    if is_valid_port port then received_or_yields (try_recv ports port) else (answer none, ports)
