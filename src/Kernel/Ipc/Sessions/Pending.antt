-- ===== src/Kernel/Ipc/Sessions/Pending.antt =====
-- kernel/src/ipc.rs, the sessions: what every call keeps of the queues of sessions to accept.
use runix.Base.Keyed.{
  All-at, Distinct, Distinct-keep, Distinct-push, at, at-keep, at-update_first, at_push,
}
use runix.Base.{
  ==-refl, ==_iff, All, All-append, All-map, Bool, Bool-cases, Bytes, List, [], ap, arith, false,
  inl, inr, keep, keep-false, keep-true, none, not, refl, some, subst, sym, update_first, ℕ, ◌&&◌,
  ◌++◌, ◌<◌, ◌==◌, ◌∙◌, ◌∷◌, ◌≡◌, ◌⊎◌,
}
use runix.Kernel.Ipc.Sessions.{
  Role, Session, SessionTable, accept_from, change, fresh_session, get, owner_role,
  reap_sessions_for, served_by, server_role, session_accept, set_locked, set_read, set_written,
  stays_pending,
}
use runix.Kernel.Ipc.Sessions.Tables.{IsBounded, get-none}
use runix.Kernel.Ipc.Sessions.Opening.{with_session}

-- A pending id is that of a session against this port that no thread serves yet.
abbrev pub Waits : List Session → ℕ → ℕ → Type 0
Waits sessions port id =
    (s : Session) × (get id sessions ≡ some s) × (s.server ≡ none) × (s.server_port ≡ port)

-- Each pending id waits, and stands in the queue of its port once.
pub record IsPending (table : SessionTable) : Type 0 where
  pub waiting : (port : ℕ) → All (Waits table.sessions port) (table.pending port)
  pub once : (port : ℕ) → Distinct (λ (i : ℕ). i) (table.pending port)

-- A change that leaves alone who serves a session, and where.
pub record IsSilent (f : Session → Session) : Type 0 where
  pub keeps_id : (s : Session) → (f s).id ≡ s.id
  pub keeps_server : (s : Session) → (f s).server ≡ s.server
  pub keeps_port : (s : Session) → (f s).server_port ≡ s.server_port

change-Waits :
    (sessions : List Session) (id : ℕ) (f : Session → Session) (port i : ℕ)
    → IsSilent f
    → Waits sessions port i
    → Waits (update_first (λ s. s.id == id) f sessions) port i
change-Waits sessions id f port i k (s, g, free, at_port) =
    let looked = at-update_first (λ (x : Session). x.id) f id i sessions k.keeps_id in
    elim (Bool-cases (id == i)) [
      | inl e ↦ (f s, rw (looked, e, g) refl, k.keeps_server s ∙ free, k.keeps_port s ∙ at_port)
      | inr e ↦ (s, rw (looked, e) g, free, at_port)
    ]

pub change-IsPending :
    (table : SessionTable) (id : ℕ) (f : Session → Session)
    → IsSilent f
    → IsPending table
    → IsPending (change table id f)
change-IsPending table id f k v = record {
  waiting = λ port.
      All-map (Waits table.sessions port)
        (Waits (update_first (λ s. s.id == id) f table.sessions) port) (table.pending port)
        (λ i. change-Waits table.sessions id f port i k) (v.waiting port);
  once = v.once;
}

pub set_written-IsSilent : (role : Role) (q : Bytes) → IsSilent (set_written role q)
set_written-IsSilent owner_role q = record {
  keeps_id = λ s. refl;
  keeps_server = λ s. refl;
  keeps_port = λ s. refl;
}
set_written-IsSilent server_role q = record {
  keeps_id = λ s. refl;
  keeps_server = λ s. refl;
  keeps_port = λ s. refl;
}

pub set_read-IsSilent : (role : Role) (q : Bytes) → IsSilent (set_read role q)
set_read-IsSilent owner_role q = set_written-IsSilent server_role q
set_read-IsSilent server_role q = set_written-IsSilent owner_role q

pub set_locked-IsSilent : (role : Role) (b : Bool) → IsSilent (set_locked role b)
set_locked-IsSilent owner_role b = record {
  keeps_id = λ s. refl;
  keeps_server = λ s. refl;
  keeps_port = λ s. refl;
}
set_locked-IsSilent server_role b = record {
  keeps_id = λ s. refl;
  keeps_server = λ s. refl;
  keeps_port = λ s. refl;
}

-- The accepted session changes, and no other that is pending.
accepted-Waits :
    (sessions : List Session) (port q id i server : ℕ)
    → Waits sessions port id
    → (port == q) ≡ false ⊎ (id == i) ≡ false
    → Waits sessions q i
    → Waits (update_first (λ s. s.id == id) (λ s. record s { server = some server }) sessions) q i
accepted-Waits sessions port q id i server (t, g, free_t, at_t) other (s, h, free, at_port) =
    let looked =
      at-update_first (λ (x : Session). x.id) (λ s. record s { server = some server }) id i sessions
        (λ s. refl) in
    elim (Bool-cases (id == i)) [
      | inl e ↦
          let found : some s ≡ some t =
            sym h ∙ ap (λ x. get x sessions) (sym ((==_iff id i).0 e)) ∙ g in
          let same : s ≡ t = ground arith in
          let here : port ≡ q =
            sym at_t ∙ sym (ap (λ (x : Session). x.server_port) same) ∙ at_port in
          absurd (ground (arith, (==_iff port q).1 here))
      | inr e ↦ (s, rw (looked, e) h, free, at_port)
    ]

-- The ids behind the accepted one still wait.
rest-Waits :
    (sessions : List Session) (port q id server : ℕ) (ids : List ℕ)
    → Waits sessions port id
    → (port == q) ≡ false ⊎ at (λ (i : ℕ). i) id ids ≡ none
    → All (Waits sessions q) ids
    → All
        (Waits (update_first (λ s. s.id == id) (λ s. record s { server = some server }) sessions) q)
        ids
rest-Waits sessions port q id server [] w other v = tt
rest-Waits sessions port q id server (i ∷ ids) w (inl o) v = (
  accepted-Waits sessions port q id i server w (inl o) v.0,
  rest-Waits sessions port q id server ids w (inl o) v.1,
)
rest-Waits sessions port q id server (i ∷ ids) w (inr o) v =
    let differ : (id == i) ≡ false = ground arith in
    let behind : at (λ (j : ℕ). j) id ids ≡ none = ground arith in
    (
      accepted-Waits sessions port q id i server w (inr differ) v.0,
      rest-Waits sessions port q id server ids w (inr behind) v.1,
    )

accept_from-IsPending :
    (table : SessionTable) (port server : ℕ) (ids : List ℕ)
    → table.pending port ≡ ids
    → IsPending table
    → IsPending (accept_from table port server ids).1
accept_from-IsPending table port server [] e v = v
accept_from-IsPending table port server (id ∷ ids) e v =
    let queue = subst (All (Waits table.sessions port)) e (v.waiting port) in
    let apart = subst (Distinct (λ (i : ℕ). i)) e (v.once port) in
    record {
      waiting = λ q. elim (Bool-cases (port == q)) [
        | inl f ↦
            let same = (==_iff port q).0 f in
            rw (f) (
              rest-Waits table.sessions port q id server ids queue.0 (inr apart.0)
                (subst (λ x. All (Waits table.sessions x) ids) same queue.1))
        | inr f ↦ rw (f) (
            rest-Waits table.sessions port q id server (table.pending q) queue.0 (inl f)
              (v.waiting q))
      ];
      once =
          λ q. elim (Bool-cases (port == q)) [ inl f ↦ rw (f) apart.1 | inr f ↦ rw (f) (v.once q) ];
    }

pub session_accept-IsPending :
    (table : SessionTable) (port server : ℕ)
    → IsPending table
    → IsPending (session_accept table port server).1
unfolding session_accept
session_accept-IsPending table port server v =
    accept_from-IsPending table port server (table.pending port) refl v

stays_of :
    (sessions : List Session) (thread i : ℕ) (s : Session)
    → get i sessions ≡ some s
    → stays_pending thread sessions i ≡ not (s.owner == thread)
stays_of sessions thread i s g = rw (stays_pending, g) refl

reaped-Waits :
    (sessions : List Session) (thread port : ℕ) (ids : List ℕ)
    → All (Waits sessions port) ids
    → All
        (Waits (keep (λ s. not (s.owner == thread) && not (served_by s thread)) sessions) port)
        (keep (stays_pending thread sessions) ids)
reaped-Waits sessions thread port [] v = tt
reaped-Waits sessions thread port (i ∷ ids) v =
    let (s, g, free, at_port) = v.0 in
    let stays = stays_pending thread sessions in
    let live = λ (x : Session). not (x.owner == thread) && not (served_by x thread) in
    let W = Waits (keep live sessions) port in
    let rest = reaped-Waits sessions thread port ids v.1 in
    let kept = stays_of sessions thread i s g in
    elim (Bool-cases (s.owner == thread)) [
      | inl o ↦ subst (All W) (sym (keep-false stays i ids (kept ∙ ap not o))) rest
      | inr o ↦
          let lives = at-keep (λ (x : Session). x.id) live i sessions s g (rw (o, free) refl) in
          subst (All W) (sym (keep-true stays i ids (kept ∙ ap not o)))
            ((s, lives, free, at_port), rest)
    ]

pub reap-IsPending :
    (table : SessionTable) (thread : ℕ)
    → IsPending table
    → IsPending (reap_sessions_for table thread)
unfolding reap_sessions_for
reap-IsPending table thread v = record {
  waiting = λ port. reaped-Waits table.sessions thread port (table.pending port) (v.waiting port);
  once = λ port.
      Distinct-keep (λ i. i) (stays_pending thread table.sessions) (table.pending port)
        (v.once port);
}

-- A session that is pending stays so when another one is opened, and its id is below the new one.
older-Waits :
    (sessions : List Session) (next port owner q i : ℕ)
    → All (λ s. s.id < next) sessions
    → Waits sessions q i
    → Waits (sessions ++ fresh_session next port owner ∷ []) q i × ((i == next) ≡ false)
older-Waits sessions next port owner q i below (s, g, free, at_port) =
    let (small, same) = All-at (λ (x : Session). x.id) (λ x. x.id < next) i sessions s g below in
    let looked =
      at_push (λ (x : Session). x.id) next i (fresh_session next port owner) sessions refl
        (get-none next sessions below) in
    let differ : (next == i) ≡ false = ground arith in
    ((s, rw (looked, differ) g, free, at_port), ground arith)

older_queue :
    (sessions : List Session) (next port owner q : ℕ) (ids : List ℕ)
    → All (λ s. s.id < next) sessions
    → All (Waits sessions q) ids
    → All (Waits (sessions ++ fresh_session next port owner ∷ []) q) ids
      × (at (λ (i : ℕ). i) next ids ≡ none)
older_queue sessions next port owner q [] below v = (tt, refl)
older_queue sessions next port owner q (i ∷ ids) below v =
    let (w, differ) = older-Waits sessions next port owner q i below v.0 in
    let (ws, absent) = older_queue sessions next port owner q ids below v.1 in
    ((w, ws), rw (differ) absent)

pub with_session-IsPending :
    (table : SessionTable) (port owner : ℕ)
    → IsBounded table
    → IsPending table
    → IsPending (with_session table port owner)
with_session-IsPending table port owner b v =
    let next = table.next_session_id in
    let new = fresh_session next port owner in
    let old = λ (q : ℕ).
      older_queue table.sessions next port owner q (table.pending q) b.ids_below (v.waiting q) in
    let found : get next (table.sessions ++ new ∷ []) ≡ some new =
      at_push (λ (x : Session). x.id) next next new table.sessions refl
        (get-none next table.sessions b.ids_below)
      ∙ rw (==-refl next) refl in
    record {
      waiting = λ q. elim (Bool-cases (port == q)) [
        | inl f ↦
            let same = (==_iff port q).0 f in
            rw (f) (
              All-append (Waits (table.sessions ++ new ∷ []) q) (table.pending port) (next ∷ [])
                (subst (λ x. All (Waits (table.sessions ++ new ∷ []) x) (table.pending port)) same
                  (old port).0)
                ((new, found, refl, same), tt))
        | inr f ↦ rw (f) (old q).0
      ];
      once = λ q. elim (Bool-cases (port == q)) [
        | inl f ↦ rw (f) (
            Distinct-push (λ (i : ℕ). i) next next (table.pending port) refl (old port).1
              (v.once port))
        | inr f ↦ rw (f) (v.once q)
      ];
    }
