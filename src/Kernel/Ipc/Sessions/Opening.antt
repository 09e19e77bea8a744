-- ===== src/Kernel/Ipc/Sessions/Opening.antt =====
-- kernel/src/ipc.rs, the sessions: `session_open`, refused or granted.
use native.Mathlib.Nat.{mod-eq_of_lt}
use runix.Base.Keyed.{Distinct-push, updated}
use runix.Base.{
  ==_iff, All, All-append, All-map, Bool-cases, List, [], ap, arith, inl, inr, keep-append, leb,
  leb→le, length, length-append, none, refl, some, subst, ℕ, ◌++◌, ◌+◌, ◌<◌, ◌==◌, ◌^◌, ◌∙◌, ◌∷◌,
  ◌≡◌, ◌≤◌, ◌⊎◌,
}
use runix.Kernel.Ipc.Sessions.{
  Session, SessionTable, fresh_session, max_live_sessions, max_sessions_per_owner, next_id,
  owned_by, session_open,
}
use runix.Kernel.Ipc.Sessions.Tables.{IsBounded, LanesFit, get-none}

-- The table after a session is opened: it stands last, and its id last in the queue of its port.
abbrev pub with_session : SessionTable → ℕ → ℕ → SessionTable
with_session table port owner = record {
  next_session_id = table.next_session_id + 1;
  sessions = table.sessions ++ fresh_session table.next_session_id port owner ∷ [];
  pending = updated table.pending port (table.pending port ++ table.next_session_id ∷ []);
}

next_id_small : (id : ℕ) → id + 1 < 2 ^ 64 → next_id id ≡ id + 1
next_id_small id h = mod-eq_of_lt h

-- A session is opened exactly when fewer than 64 live and fewer than 8 of this owner; it gets the next id.
-- Otherwise nothing changes.
pub session_open_cases :
    (table : SessionTable) (port owner : ℕ)
    → table.next_session_id + 1 < 2 ^ 64
    → IsBounded table
    → ((length table.sessions < max_live_sessions)
        × (length (owned_by owner table.sessions) < max_sessions_per_owner)
        × (session_open table port owner
            ≡ (some table.next_session_id, with_session table port owner)))
      ⊎ (((max_live_sessions ≤ length table.sessions)
            ⊎ (max_sessions_per_owner ≤ length (owned_by owner table.sessions)))
          × (session_open table port owner ≡ (none, table)))
unfolding session_open
session_open_cases table port owner h v =
    elim (Bool-cases (leb max_live_sessions (length table.sessions))) [
      | inl f ↦ inr (inl (leb→le _ _ f), rw (f) refl)
      | inr f ↦
          elim (Bool-cases (leb max_sessions_per_owner (length (owned_by owner table.sessions)))) [
            | inl g ↦ inr (inr (leb→le _ _ g), rw (f, g) refl)
            | inr g ↦ inl (
              ground arith,
              ground arith,
              rw
                  (
                    f,
                    g,
                    next_id_small table.next_session_id h,
                    get-none table.next_session_id table.sessions v.ids_below,
                  )
                  refl,
            )
          ]
    ]

All_mono :
    (n : ℕ) (sessions : List Session)
    → All (λ s. s.id < n) sessions
    → All (λ s. s.id < n + 1) sessions
All_mono n sessions h =
    All-map (λ s. s.id < n) (λ s. s.id < n + 1) sessions (λ s k. omega (arith, k)) h

owned-push :
    (sessions : List Session) (new : Session)
    → length (owned_by new.owner sessions) < max_sessions_per_owner
    → ((thread : ℕ) → length (owned_by thread sessions) ≤ max_sessions_per_owner)
    → (thread : ℕ) → length (owned_by thread (sessions ++ new ∷ [])) ≤ max_sessions_per_owner
owned-push sessions new few each thread =
    let grown =
      ap length (keep-append (λ s. s.owner == thread) sessions (new ∷ []))
      ∙ length-append (owned_by thread sessions) (owned_by thread (new ∷ [])) in
    elim (Bool-cases (new.owner == thread)) [
      | inl e ↦
          let own : length (owned_by thread sessions) < max_sessions_per_owner =
            subst (λ t. length (owned_by t sessions) < max_sessions_per_owner)
              ((==_iff new.owner thread).0 e) few in
          ground arith
      | inr e ↦ let own = each thread in ground arith
    ]

pub with_session-IsBounded :
    (table : SessionTable) (port owner : ℕ)
    → length table.sessions < max_live_sessions
    → length (owned_by owner table.sessions) < max_sessions_per_owner
    → IsBounded table
    → IsBounded (with_session table port owner)
with_session-IsBounded table port owner few few_own v =
    let new = fresh_session table.next_session_id port owner in
    let each = owned-push table.sessions new few_own v.few_each in
    record {
      ids_below =
          All-append (λ s. s.id < table.next_session_id + 1) table.sessions (new ∷ [])
            (All_mono table.next_session_id table.sessions v.ids_below) (omega arith, tt);
      ids_apart =
          Distinct-push (λ s. s.id) table.next_session_id new table.sessions refl
            (get-none table.next_session_id table.sessions v.ids_below) v.ids_apart;
      few = omega (arith, length-append table.sessions (new ∷ []), few);
      few_each = each;
      lanes =
          All-append LanesFit table.sessions (new ∷ []) v.lanes ((omega arith, omega arith), tt);
    }

pub session_open-IsBounded :
    (table : SessionTable) (port owner : ℕ)
    → table.next_session_id + 1 < 2 ^ 64
    → IsBounded table
    → IsBounded (session_open table port owner).1
session_open-IsBounded table port owner h v = elim (session_open_cases table port owner h v) [
  | inl (few, few_own, e) ↦ rw (e) (with_session-IsBounded table port owner few few_own v)
  | inr (r, e) ↦ rw (e) v
]
