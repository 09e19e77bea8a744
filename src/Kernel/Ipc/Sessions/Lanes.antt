-- ===== src/Kernel/Ipc/Sessions/Lanes.antt =====
-- kernel/src/ipc.rs, the sessions: what one side of a session reads is what the other side wrote.
use runix.Kernel.Ipc.Sessions.Pending.{set_read-IsSilent, set_written-IsSilent}
use mathlib.Core.List.{append-nil}
use runix.Base.Keyed.{at-update_first}
use runix.Base.{
  ==_iff, Bool, Bool-cases, Bytes, List, Option, [], ap, arith, false, if◌then◌else◌, inl, inr,
  none, refl, some, subst, sym, true, ℕ, ◌&&◌, ◌++◌, ◌==◌, ◌∙◌, ◌∷◌, ◌≡◌, ◌⊎◌,
}
use runix.Kernel.Ipc.{Turn, answer, yields}
use runix.Kernel.Ipc.Sessions.{
  Role, Session, SessionTable, change, get, owner_role, participant, read, server_role,
  session_send, session_try_recv, set_read, set_written, written,
}
use runix.Kernel.Ipc.Sessions.Calls.{
  Call, accepts, exits, locks, opens, participant_of, receives, sends, session_send_cases,
  session_try_recv_cases, step, unlocks,
}

abbrev pub other : Role → Role
other owner_role = server_role
other server_role = owner_role

abbrev same_role : Role → Role → Bool
same_role owner_role owner_role = true
same_role server_role server_role = true
same_role owner_role server_role = false
same_role server_role owner_role = false

abbrev acts_as : Role → Option (Session × Role) → Bool
acts_as role none = false
acts_as role (some (s, r)) = same_role r role

abbrev was_sent : Turn Bool → Bool
was_sent yields = false
was_sent (answer sent) = sent

abbrev bytes_of : Option ℕ → Bytes
bytes_of none = []
bytes_of (some b) = b ∷ []

-- The byte that a call writes into a session in a role, and the byte that it reads from it.
abbrev pub wrote : ℕ → Role → SessionTable → ℕ × Call → Bytes
wrote id role table (t, sends i b) =
    if (i == id) && was_sent (session_send table i t b).0 && acts_as role (participant table i t)
    then b ∷ []
    else []
wrote id role table (t, opens p) = []
wrote id role table (t, accepts p) = []
wrote id role table (t, receives i) = []
wrote id role table (t, locks i) = []
wrote id role table (t, unlocks i) = []
wrote id role table (t, exits) = []

abbrev pub got : ℕ → Role → SessionTable → ℕ × Call → Bytes
got id role table (t, receives i) =
    if (i == id) && acts_as role (participant table i t)
    then bytes_of (session_try_recv table i t).0
    else []
got id role table (t, opens p) = []
got id role table (t, accepts p) = []
got id role table (t, sends i b) = []
got id role table (t, locks i) = []
got id role table (t, unlocks i) = []
got id role table (t, exits) = []

abbrev pub all_written : ℕ → Role → SessionTable → List (ℕ × Call) → Bytes
all_written id role table [] = []
all_written id role table (c ∷ cs) = wrote id role table c ++ all_written id role (step table c) cs

abbrev pub all_read : ℕ → Role → SessionTable → List (ℕ × Call) → Bytes
all_read id role table [] = []
all_read id role table (c ∷ cs) = got id role table c ++ all_read id role (step table c) cs

-- What a call does to a lane: what waited and what is written is what is read and what waits then.
abbrev pub Flows : ℕ → Role → SessionTable → ℕ × Call → Session → Session → Type 0
Flows id role table c s after =
    written role s ++ wrote id role table c ≡ got id (other role) table c ++ written role after

-- The session is gone after a call, or its lanes flow.
abbrev pub Carried : ℕ → SessionTable → ℕ × Call → Session → Type 0
Carried id table c s =
    (get id (step table c).sessions ≡ none)
    ⊎ ((after : Session) × (get id (step table c).sessions ≡ some after)
        × ((role : Role) → Flows id role table c s after))

-- A change of a session, seen in the session of an id.
pub changed :
    (table : SessionTable) (i id : ℕ) (f : Session → Session) (s : Session)
    → ((x : Session) → (f x).id ≡ x.id)
    → get id table.sessions ≡ some s
    → get id (change table i f).sessions ≡ some (if i == id then f s else s)
changed table i id f s k g = elim (Bool-cases (i == id)) [
  | inl e ↦ rw (at-update_first (λ (x : Session). x.id) f i id table.sessions k, e, g) refl
  | inr e ↦ rw (at-update_first (λ (x : Session). x.id) f i id table.sessions k, e) g
]

-- A call that does nothing to the table, and writes and reads nothing.
pub idle_flows :
    (table : SessionTable) (c : ℕ × Call) (id : ℕ) (s : Session)
    → step table c ≡ table
    → ((role : Role) → wrote id role table c ≡ [])
    → ((role : Role) → got id role table c ≡ [])
    → get id table.sessions ≡ some s
    → Carried id table c s
idle_flows table c id s e w r g = inr (
  s,
  ap (λ (x : SessionTable). get id x.sessions) e ∙ g,
  λ role.
      ap (λ q. written role s ++ q) (w role)
      ∙ append-nil (written role s)
      ∙ sym (ap (λ q. q ++ written role s) (r (other role))),
)

-- A call that changes one session.
pub change-Flows :
    (table : SessionTable) (c : ℕ × Call) (i id : ℕ) (f : Session → Session) (s : Session)
    → step table c ≡ change table i f
    → ((x : Session) → (f x).id ≡ x.id)
    → get id table.sessions ≡ some s
    → ((role : Role) → Flows id role table c s (if i == id then f s else s))
    → Carried id table c s
change-Flows table c i id f s e k g flows = inr (
  if i == id then f s else s,
  ap (λ (x : SessionTable). get id x.sessions) e ∙ changed table i id f s k g,
  flows,
)

push_flows :
    (r role : Role) (s : Session) (b : ℕ)
    → written role s ++ (if same_role r role then b ∷ [] else [])
      ≡ written role (set_written r (written r s ++ b ∷ []) s)
push_flows owner_role owner_role s b = refl
push_flows owner_role server_role s b = append-nil s.server_to_owner
push_flows server_role owner_role s b = append-nil s.owner_to_server
push_flows server_role server_role s b = refl

pop_flows :
    (r role : Role) (s : Session) (b : ℕ) (bs : Bytes)
    → read r s ≡ b ∷ bs
    → written role s
      ≡ (if same_role r (other role) then b ∷ [] else []) ++ written role (set_read r bs s)
pop_flows owner_role owner_role s b bs e = refl
pop_flows owner_role server_role s b bs e = e
pop_flows server_role owner_role s b bs e = e
pop_flows server_role server_role s b bs e = refl

same_participant :
    (table : SessionTable) (i t id : ℕ) (u s : Session) (r : Role)
    → (i == id) ≡ true
    → participant table i t ≡ some (u, r)
    → get id table.sessions ≡ some s
    → u ≡ s
same_participant table i t id u s r same p g =
    let found : some u ≡ some s =
      sym (participant_of table i t u r p).0
      ∙ ap (λ x. get x table.sessions) ((==_iff i id).0 same)
      ∙ g in
    ground arith

pub send_flows :
    (table : SessionTable) (t i b id : ℕ) (s : Session)
    → get id table.sessions ≡ some s
    → Carried id table (t, sends i b) s
send_flows table t i b id s g = elim (session_send_cases table i t b) [
  | inl (n, e) ↦
      idle_flows table (t, sends i b) id s (ap (λ r. r.1) e) (λ role. rw (n) (ground arith))
        (λ role. refl) g
  | inr (u, r, p, inl (full, e)) ↦
      idle_flows table (t, sends i b) id s (ap (λ r. r.1) e) (λ role. rw (e) (ground arith))
        (λ role. refl) g
  | inr (u, r, p, inr (room, e)) ↦
      change-Flows table (t, sends i b) i id (set_written r (written r u ++ b ∷ [])) s
        (ap (λ r. r.1) e) (set_written-IsSilent r (written r u ++ b ∷ [])).keeps_id g
        (λ role. elim (Bool-cases (i == id)) [
          | inl same ↦
              let own : u ≡ s = same_participant table i t id u s r same p g in
              subst
                (λ v.
                  written role s ++ wrote id role table (t, sends i b)
                  ≡ written role (if i == id then set_written r (written r v ++ b ∷ []) s else s))
                (sym own) (rw (same, e, p) (push_flows r role s b))
          | inr differ ↦ rw (differ) (append-nil (written role s))
        ])
]

pub receive_flows :
    (table : SessionTable) (t i id : ℕ) (s : Session)
    → get id table.sessions ≡ some s
    → Carried id table (t, receives i) s
receive_flows table t i id s g = elim (session_try_recv_cases table i t) [
  | inl e ↦
      idle_flows table (t, receives i) id s (ap (λ r. r.1) e) (λ role. refl)
        (λ role. rw (e) (ground arith)) g
  | inr (u, r, b, bs, p, q, e) ↦
      change-Flows table (t, receives i) i id (set_read r bs) s (ap (λ r. r.1) e)
        (set_read-IsSilent r bs).keeps_id g
        (λ role. elim (Bool-cases (i == id)) [
          | inl same ↦
              let own : u ≡ s = same_participant table i t id u s r same p g in
              let first : read r s ≡ b ∷ bs = subst (λ v. read r v ≡ b ∷ bs) own q in
              rw (same, e, p) (append-nil (written role s) ∙ pop_flows r role s b bs first)
          | inr differ ↦ rw (differ) (append-nil (written role s))
        ])
]
