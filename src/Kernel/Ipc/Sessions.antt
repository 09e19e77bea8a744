-- ===== src/Kernel/Ipc/Sessions.antt =====
-- kernel/src/ipc.rs, the sessions: channels with two lanes that a thread opens against a port and
-- another thread accepts. A `BTreeMap` is the list of its entries by rising key; ids rise, so a new
-- session stands last.
pub mod Tables
pub mod Opening
pub mod Calls
pub mod Pending
pub mod History
pub mod Lanes
pub mod Exchange
pub mod Fifo
mod Examples
use runix.Base.Keyed.{at, updated}
use runix.Base.{
  Bool, Bytes, List, Option, [], false, if◌then◌else◌, is_some, keep, leb, length, ltb, none, not,
  some, true, update_first, ℕ, ◌%◌, ◌&&◌, ◌++◌, ◌+◌, ◌==◌, ◌^◌, ◌∷◌,
}
use runix.Kernel.Ipc.{Turn, answer, channel_capacity, yields}

abbrev pub session_channel_capacity : ℕ
session_channel_capacity = channel_capacity

abbrev pub max_live_sessions : ℕ
max_live_sessions = 64

abbrev pub max_sessions_per_owner : ℕ
max_sessions_per_owner = 8

pub data Role : Type 0 where
  owner_role server_role : Role

-- `Session`, with the id that is its key.
pub record Session : Type 0 where
  pub id : ℕ
  pub owner_to_server : Bytes
  pub server_to_owner : Bytes
  pub owner_send_locked : Bool
  pub server_send_locked : Bool
  pub owner : ℕ
  pub server : Option ℕ
  pub server_port : ℕ

-- `NEXT_SESSION_ID`, `SESSIONS` and `PENDING_BY_PORT`, where a port without an entry has the empty queue.
pub record SessionTable : Type 0 where
  pub next_session_id : ℕ
  pub sessions : List Session
  pub pending : ℕ → List ℕ

abbrev pub no_sessions : SessionTable
no_sessions = record { next_session_id = 1; sessions = []; pending = λ port. [] }

-- `sessions.get(&id)`
abbrev pub get : ℕ → List Session → Option Session
get = at (λ s. s.id)

-- `fetch_add(1)`
abbrev pub next_id : ℕ → ℕ
next_id id = (id + 1) % 2 ^ 64

-- `sessions.values().filter(|s| s.owner == owner)`
abbrev pub owned_by : ℕ → List Session → List Session
owned_by thread = keep (λ s. s.owner == thread)

abbrev pub fresh_session : ℕ → ℕ → ℕ → Session
fresh_session id server_port owner = record {
  id = id;
  owner_to_server = [];
  server_to_owner = [];
  owner_send_locked = false;
  server_send_locked = false;
  owner = owner;
  server = none;
  server_port = server_port;
}

-- `sessions.insert(id, session)`: the entry of a key that is there is replaced.
abbrev pub insert_session : Session → List Session → List Session
insert_session s sessions =
    if is_some (get s.id sessions)
    then update_first (λ e. e.id == s.id) (λ e. s) sessions
    else sessions ++ s ∷ []

pub session_open : SessionTable → ℕ → ℕ → Option ℕ × SessionTable
session_open table server_port owner =
    if leb max_live_sessions (length table.sessions)
    then (none, table)
    else if leb max_sessions_per_owner (length (owned_by owner table.sessions))
    then (none, table)
    else (
      some table.next_session_id,
      record {
        next_session_id = next_id table.next_session_id;
        sessions =
            insert_session (fresh_session table.next_session_id server_port owner) table.sessions;
        pending =
            updated table.pending server_port
              (table.pending server_port ++ table.next_session_id ∷ []);
      },
    )

pub session_pending : SessionTable → ℕ → Bool
session_pending table server_port = not (length (table.pending server_port) == 0)

-- `session_accept`, from the queue of the port on.
abbrev accept_from : SessionTable → ℕ → ℕ → List ℕ → Option ℕ × SessionTable
accept_from table server_port server [] = (none, table)
accept_from table server_port server (id ∷ ids) = (
  some id,
  record table {
    sessions =
        update_first (λ s. s.id == id) (λ s. record s { server = some server }) table.sessions;
    pending = updated table.pending server_port ids;
  },
)

pub session_accept : SessionTable → ℕ → ℕ → Option ℕ × SessionTable
session_accept table server_port server =
    accept_from table server_port server (table.pending server_port)

-- `server == Some(thread)`
abbrev pub served_by : Session → ℕ → Bool
served_by session thread = elim session.server [ none ↦ false | some t ↦ t == thread ]

pub role_of : Session → ℕ → Option Role
role_of session thread =
    if session.owner == thread
    then some owner_role
    else if served_by session thread
    then some server_role
    else none

-- The lane that a role writes, and the one that it reads.
abbrev pub written : Role → Session → Bytes
written owner_role s = s.owner_to_server
written server_role s = s.server_to_owner

abbrev pub read : Role → Session → Bytes
read owner_role s = s.server_to_owner
read server_role s = s.owner_to_server

abbrev pub set_written : Role → Bytes → Session → Session
set_written owner_role q s = record s { owner_to_server = q }
set_written server_role q s = record s { server_to_owner = q }

abbrev pub set_read : Role → Bytes → Session → Session
set_read owner_role q s = record s { server_to_owner = q }
set_read server_role q s = record s { owner_to_server = q }

abbrev pub is_locked : Role → Session → Bool
is_locked owner_role s = s.owner_send_locked
is_locked server_role s = s.server_send_locked

abbrev pub set_locked : Role → Bool → Session → Session
set_locked owner_role b s = record s { owner_send_locked = b }
set_locked server_role b s = record s { server_send_locked = b }

-- The session of the id, with the role of the caller in it.
pub participant : SessionTable → ℕ → ℕ → Option (Session × Role)
unfolding role_of
participant table session_id caller = elim (get session_id table.sessions) [
  | none ↦ none
  | some session ↦ elim (role_of session caller) [ none ↦ none | some role ↦ some (session, role) ]
]

abbrev pub change : SessionTable → ℕ → (Session → Session) → SessionTable
change table session_id f = record table {
  sessions = update_first (λ s. s.id == session_id) f table.sessions;
}

-- One pass of `session_send`.
pub session_send : SessionTable → ℕ → ℕ → ℕ → Turn Bool × SessionTable
unfolding participant
session_send table session_id caller byte = elim (participant table session_id caller) [
  | none ↦ (answer false, table)
  | some (session, role) ↦
      if ltb (length (written role session)) session_channel_capacity
      then (
        answer true,
        change table session_id (set_written role (written role session ++ byte ∷ [])),
      )
      else (yields, table)
]

-- `pop_front` of the lane that a role reads.
abbrev take_byte : SessionTable → ℕ → Role → Bytes → Option ℕ × SessionTable
take_byte table session_id role [] = (none, table)
take_byte table session_id role (b ∷ bs) = (some b, change table session_id (set_read role bs))

pub session_try_recv : SessionTable → ℕ → ℕ → Option ℕ × SessionTable
unfolding participant
session_try_recv table session_id caller = elim (participant table session_id caller) [
  | none ↦ (none, table)
  | some (session, role) ↦ take_byte table session_id role (read role session)
]

-- One pass of `session_begin_send`.
pub session_begin_send : SessionTable → ℕ → ℕ → Turn Bool × SessionTable
unfolding participant
session_begin_send table session_id caller = elim (participant table session_id caller) [
  | none ↦ (answer false, table)
  | some (session, role) ↦
      if is_locked role session
      then (yields, table)
      else (answer true, change table session_id (set_locked role true))
]

pub session_end_send : SessionTable → ℕ → ℕ → Bool × SessionTable
unfolding participant
session_end_send table session_id caller = elim (participant table session_id caller) [
  | none ↦ (false, table)
  | some (session, role) ↦ (true, change table session_id (set_locked role false))
]

-- A pending id is kept if its session is there and `thread` is not its owner.
abbrev pub stays_pending : ℕ → List Session → ℕ → Bool
stays_pending thread sessions id = elim (get id sessions) [
  | none ↦ false
  | some s ↦ not (s.owner == thread)
]

pub reap_sessions_for : SessionTable → ℕ → SessionTable
reap_sessions_for table thread = record table {
  sessions = keep (λ s. not (s.owner == thread) && not (served_by s thread)) table.sessions;
  pending = λ port. keep (stays_pending thread table.sessions) (table.pending port);
}
