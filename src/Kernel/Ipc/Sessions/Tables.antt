-- ===== src/Kernel/Ipc/Sessions/Tables.antt =====
-- kernel/src/ipc.rs, the sessions: what every call keeps of the table of sessions.
use runix.Base.Keyed.{All-at, Distinct, Distinct-keep, Distinct-update_first}
use runix.Base.{
  All, All-keep, All-update_first, Bool, Bytes, List, [], ap, arith, length, length-keep,
  length-keep-keep, length-keep-update_first, length-update_first, none, not, refl, some, ℕ, ◌&&◌,
  ◌<◌, ◌==◌, ◌∷◌, ◌≡◌, ◌≤◌,
}
use runix.Kernel.Ipc.Sessions.{
  Role, Session, SessionTable, accept_from, change, get, max_live_sessions, max_sessions_per_owner,
  owned_by, owner_role, reap_sessions_for, served_by, server_role, session_accept,
  session_channel_capacity, set_locked, set_read, set_written,
}

abbrev pub LanesFit : Session → Type 0
LanesFit s =
    (length s.owner_to_server ≤ session_channel_capacity)
    × (length s.server_to_owner ≤ session_channel_capacity)

-- The ids are below the next one and apart; there are at most 64 sessions, at most 8 of one owner, and
-- at most 32 bytes wait in a lane.
pub record IsBounded (table : SessionTable) : Type 0 where
  pub ids_below : All (λ s. s.id < table.next_session_id) table.sessions
  pub ids_apart : Distinct (λ s. s.id) table.sessions
  pub few : length table.sessions ≤ max_live_sessions
  pub few_each : (thread : ℕ) → length (owned_by thread table.sessions) ≤ max_sessions_per_owner
  pub lanes : All LanesFit table.sessions

-- A change that keeps the id, the owner and lanes that fit.
pub record IsMild (f : Session → Session) : Type 0 where
  pub same_id : (s : Session) → (f s).id ≡ s.id
  pub same_owner : (s : Session) → (f s).owner ≡ s.owner
  pub still_fit : (s : Session) → LanesFit s → LanesFit (f s)

pub change-IsBounded :
    (table : SessionTable) (id : ℕ) (f : Session → Session)
    → IsMild f
    → IsBounded table
    → IsBounded (change table id f)
change-IsBounded table id f m v = record {
  ids_below =
      All-update_first (λ s. s.id < table.next_session_id) (λ s. s.id == id) f table.sessions
        (λ s h. rw (m.same_id s) h) v.ids_below;
  ids_apart = Distinct-update_first (λ s. s.id) f id table.sessions m.same_id v.ids_apart;
  few = rw (length-update_first (λ s. s.id == id) f table.sessions) v.few;
  few_each = λ thread. omega (
    arith,
    length-keep-update_first (λ s. s.owner == thread) (λ s. s.id == id) f table.sessions
        (λ s. ap (λ o. o == thread) (m.same_owner s)),
    v.few_each thread,
  );
  lanes = All-update_first LanesFit (λ s. s.id == id) f table.sessions m.still_fit v.lanes;
}

pub set_written-IsMild :
    (role : Role) (q : Bytes) → length q ≤ session_channel_capacity → IsMild (set_written role q)
set_written-IsMild owner_role q h = record {
  same_id = λ s. refl;
  same_owner = λ s. refl;
  still_fit = λ s (a, b). (h, b);
}
set_written-IsMild server_role q h = record {
  same_id = λ s. refl;
  same_owner = λ s. refl;
  still_fit = λ s (a, b). (a, h);
}

pub set_read-IsMild :
    (role : Role) (q : Bytes) → length q ≤ session_channel_capacity → IsMild (set_read role q)
set_read-IsMild owner_role q h = set_written-IsMild server_role q h
set_read-IsMild server_role q h = set_written-IsMild owner_role q h

pub set_locked-IsMild : (role : Role) (b : Bool) → IsMild (set_locked role b)
set_locked-IsMild owner_role b = record {
  same_id = λ s. refl;
  same_owner = λ s. refl;
  still_fit = λ s h. h;
}
set_locked-IsMild server_role b = record {
  same_id = λ s. refl;
  same_owner = λ s. refl;
  still_fit = λ s h. h;
}

pub lanes_of :
    (table : SessionTable) (id : ℕ) (s : Session)
    → get id table.sessions ≡ some s
    → All LanesFit table.sessions
    → LanesFit s
lanes_of table id s e v = (All-at (λ s. s.id) LanesFit id table.sessions s e v).0

pub reap-IsBounded :
    (table : SessionTable) (thread : ℕ)
    → IsBounded table
    → IsBounded (reap_sessions_for table thread)
unfolding reap_sessions_for
reap-IsBounded table thread v =
    let live = λ (s : Session). not (s.owner == thread) && not (served_by s thread) in
    record {
      ids_below = All-keep (λ s. s.id < table.next_session_id) live table.sessions v.ids_below;
      ids_apart = Distinct-keep (λ s. s.id) live table.sessions v.ids_apart;
      few = omega (arith, length-keep live table.sessions, v.few);
      few_each = λ t.
          omega (arith, length-keep-keep (λ s. s.owner == t) live table.sessions, v.few_each t);
      lanes = All-keep LanesFit live table.sessions v.lanes;
    }

-- An id at or above the next one is the id of no session.
pub get-none :
    (id : ℕ) (sessions : List Session) → All (λ s. s.id < id) sessions → get id sessions ≡ none
get-none id [] h = refl
get-none id (s ∷ ss) h = ground (arith, h.0, get-none id ss h.1)

pub session_accept-IsBounded :
    (table : SessionTable) (port server : ℕ)
    → IsBounded table
    → IsBounded (session_accept table port server).1
unfolding session_accept
session_accept-IsBounded table port server v = accepts (table.pending port)
  where
    accepts : (ids : List ℕ) → IsBounded (accept_from table port server ids).1
    accepts [] = v
    accepts (id ∷ ids) =
        let next =
          change-IsBounded table id (λ s. record s { server = some server })
            (record { same_id = λ s. refl; same_owner = λ s. refl; still_fit = λ s h. h }) v in
        record {
          ids_below = next.ids_below;
          ids_apart = next.ids_apart;
          few = next.few;
          few_each = next.few_each;
          lanes = next.lanes;
        }
