-- ===== src/CitadelIntegration/WormLog/Chain.antt =====
-- The chain of the evidence log of citadel-integration/src/lib.rs: what is recorded verifies, and what
-- verifies is chained.
use runix.Base.{
  Bool, Bytes, List, Option, [], ap, arith, bytes_eq_iff, length, none, refl, some, subst, suc, sym,
  true, ℕ, ◌++◌, ◌+◌, ◌↔◌, ◌∷◌, ◌≡◌,
}
use runix.CitadelIntegration.WormLog.{
  SandboxTier, ShadowMarshalOutcome, WormEntry, WormLog, compute_hash, hashed_entry, last_hash, new,
  next_entry, push_entry, record_lifecycle_transition, record_proxy_verification,
  record_shadow_marshal_evaluation, transition_reason, verify_chain, verify_from, zeros,
}

pub last_hash-append :
    (h : Bytes) (xs ys : List WormEntry) → last_hash h (xs ++ ys) ≡ last_hash (last_hash h xs) ys
last_hash-append h [] ys = refl
last_hash-append h (x ∷ xs) ys = last_hash-append x.entry_hash xs ys

module _ (sha256 : Bytes → Bytes) where
  -- The entry follows the hash, and its own hash is that of its fields.
  abbrev pub Follows : Bytes → WormEntry → Type 0
  Follows h e = (e.prev_hash ≡ h) × (e.entry_hash ≡ sha256 (hashed_entry e))

  pub verify_from_cons :
      (h : Bytes) (e : WormEntry) (es : List WormEntry)
      → (verify_from sha256 h (e ∷ es) ≡ true)
        ↔ (Follows h e × (verify_from sha256 e.entry_hash es ≡ true))
  unfolding verify_from hashed_entry
  verify_from_cons h e es =
      let p = bytes_eq_iff e.prev_hash h in
      let q =
        bytes_eq_iff
          (compute_hash sha256 e.prev_hash e.seq e.module_id e.instance_id e.tier e.authorized
            e.reason e.shadow_marshal)
          e.entry_hash in
      (
        λ v. ((p.0 (ground arith), sym (q.0 (ground arith))), ground arith),
        λ f. let a = p.1 f.0.0 in let b = q.1 (sym f.0.1) in ground (arith, f.1),
      )

  -- A chain verifies exactly when it does in two parts, the second from the last hash of the first.
  pub verify_from-append :
      (h : Bytes) (xs ys : List WormEntry)
      → (verify_from sha256 h (xs ++ ys) ≡ true)
        ↔ ((verify_from sha256 h xs ≡ true) × (verify_from sha256 (last_hash h xs) ys ≡ true))
  verify_from-append h [] ys = (λ v. (unfold verify_from in refl, v), λ v. v.1)
  verify_from-append h (x ∷ xs) ys =
      let front = verify_from_cons h x xs in
      let both = verify_from_cons h x (xs ++ ys) in
      let rest = verify_from-append x.entry_hash xs ys in
      (
        λ v. let (f, t) = both.0 v in let (a, b) = rest.0 t in (front.1 (f, a), b),
        λ v. let (f, t) = front.0 v.0 in both.1 (f, rest.1 (t, v.1)),
      )

  verify_from-single :
      (h : Bytes) (e : WormEntry) → Follows h e → verify_from sha256 h (e ∷ []) ≡ true
  verify_from-single h e f = (verify_from_cons h e []).1 (f, unfold verify_from in refl)

  pub push_entry-verify_chain :
      (log : WormLog) (m : Bytes) (i : Option Bytes) (t : Option SandboxTier) (a : Bool)
      (r : Option Bytes) (o : Option ShadowMarshalOutcome)
      → verify_chain sha256 log ≡ true
      → verify_chain sha256 (push_entry sha256 log m i t a r o) ≡ true
  unfolding verify_chain push_entry
  push_entry-verify_chain log m i t a r o v = (verify_from-append (zeros 32) log.entries _).1 (
    v,
    verify_from-single (last_hash (zeros 32) log.entries) (next_entry sha256 log m i t a r o)
        (unfold hashed_entry in (refl, refl)),
  )

  -- From a hash, every entry follows the entries before it.
  abbrev pub ChainedFrom : Bytes → List WormEntry → Type 0
  ChainedFrom h es =
      (xs : List WormEntry) (e : WormEntry) (ys : List WormEntry)
      → es ≡ xs ++ e ∷ ys
      → Follows (last_hash h xs) e

  chained_of_verify :
      (h : Bytes) (es : List WormEntry) → verify_from sha256 h es ≡ true → ChainedFrom h es
  chained_of_verify h es v xs e ys q =
      let parts =
        (verify_from-append h xs (e ∷ ys)).0 (subst (λ z. verify_from sha256 h z ≡ true) q v) in
      ((verify_from_cons (last_hash h xs) e ys).0 parts.1).0

  verify_of_chained :
      (h : Bytes) (es : List WormEntry) → ChainedFrom h es → verify_from sha256 h es ≡ true
  verify_of_chained h [] c = unfold verify_from in refl
  verify_of_chained h (x ∷ es) c = (verify_from_cons h x es).1 (
    c [] x es refl,
    verify_of_chained x.entry_hash es (λ xs e ys q. c (x ∷ xs) e ys (ap (λ z. x ∷ z) q)),
  )

  -- A log verifies exactly when each of its entries names the hash of the entry before it, or the zero
  -- hash for the first one, and its own hash is the hash of its fields.
  pub verify_chain_iff :
      (log : WormLog)
      → (verify_chain sha256 log ≡ true) ↔ (
          (xs : List WormEntry) (e : WormEntry) (ys : List WormEntry)
          → log.entries ≡ xs ++ e ∷ ys
          → (e.prev_hash ≡ last_hash (zeros 32) xs) × (e.entry_hash ≡ sha256 (hashed_entry e)))
  unfolding verify_chain
  verify_chain_iff log =
      (chained_of_verify (zeros 32) log.entries, verify_of_chained (zeros 32) log.entries)

-- The calls that append to a log.
pub data Recording : Type 0 where
  shadow : Bytes → Bytes → ShadowMarshalOutcome → Recording
  proxy : Bytes → Bytes → Bool → Option Bytes → Recording
  lifecycle : Bytes → Bytes → Bytes → Bool → Option Bytes → Recording
  authorization : Bytes → Option Bytes → Option SandboxTier → Bool → Option Bytes → Recording

unfoldable pub recorded : (Bytes → Bytes) → WormLog → Recording → WormLog
recorded sha256 log (shadow m i o) = record_shadow_marshal_evaluation sha256 log m i o
recorded sha256 log (proxy m i a r) = record_proxy_verification sha256 log m i a r
recorded sha256 log (lifecycle m from to a r) = record_lifecycle_transition sha256 log m from to a r
recorded sha256 log (authorization m i t a r) = push_entry sha256 log m i t a r none

unfoldable pub recorded_all : (Bytes → Bytes) → WormLog → List Recording → WormLog
recorded_all sha256 log [] = log
recorded_all sha256 log (r ∷ rs) = recorded_all sha256 (recorded sha256 log r) rs

-- Positions: the entries are numbered from the given number.
abbrev pub NumberedFrom : ℕ → List WormEntry → Type 0
NumberedFrom n [] = Unit {0}
NumberedFrom n (e ∷ es) = (e.seq ≡ n) × NumberedFrom (suc n) es

NumberedFrom-append :
    (n : ℕ) (xs : List WormEntry) (e : WormEntry)
    → e.seq ≡ n + length xs
    → NumberedFrom n xs
    → NumberedFrom n (xs ++ e ∷ [])
NumberedFrom-append n [] e q h = (omega arith, tt)
NumberedFrom-append n (x ∷ xs) e q h = (h.0, NumberedFrom-append (suc n) xs e (omega arith) h.1)

module _ (sha256 : Bytes → Bytes) where
  -- Every entry is numbered with its position, and the log verifies.
  abbrev pub Sound : WormLog → Type 0
  Sound log = NumberedFrom 0 log.entries × (verify_chain sha256 log ≡ true)

  push_entry-Sound :
      (log : WormLog) (m : Bytes) (i : Option Bytes) (t : Option SandboxTier) (a : Bool)
      (r : Option Bytes) (o : Option ShadowMarshalOutcome)
      → Sound log
      → Sound (push_entry sha256 log m i t a r o)
  unfolding push_entry
  push_entry-Sound log m i t a r o s = (
    NumberedFrom-append 0 log.entries (next_entry sha256 log m i t a r o) (omega arith) s.0,
    push_entry-verify_chain sha256 log m i t a r o s.1,
  )

  recorded-Sound : (log : WormLog) (r : Recording) → Sound log → Sound (recorded sha256 log r)
  unfolding recorded record_shadow_marshal_evaluation record_proxy_verification
      record_lifecycle_transition
  recorded-Sound log (shadow m i o) s = push_entry-Sound log _ _ _ _ _ _ s
  recorded-Sound log (proxy m i a r) s = push_entry-Sound log _ _ _ _ _ _ s
  recorded-Sound log (lifecycle m from to a r) s = push_entry-Sound log _ _ _ _ _ _ s
  recorded-Sound log (authorization m i t a r) s = push_entry-Sound log _ _ _ _ _ _ s

  -- Whatever is recorded after a log that verifies and whose entries are numbered with their
  -- positions, the log still verifies and is numbered so.
  pub recorded_all-Sound :
      (log : WormLog) (rs : List Recording)
      → NumberedFrom 0 log.entries × (verify_chain sha256 log ≡ true)
      → NumberedFrom 0 (recorded_all sha256 log rs).entries
        × (verify_chain sha256 (recorded_all sha256 log rs) ≡ true)
  unfolding recorded_all
  recorded_all-Sound log [] s = s
  recorded_all-Sound log (r ∷ rs) s =
      recorded_all-Sound (recorded sha256 log r) rs (recorded-Sound log r s)

module _ (sha256 : Bytes → Bytes) where
  -- A lifecycle transition appends one entry, with the subject as its module, the verdict, and the
  -- text of the transition as its reason.
  pub record_lifecycle_transition_lem :
      (log : WormLog) (subject from to : Bytes) (a : Bool) (r : Option Bytes)
      → (e : WormEntry) × ((record_lifecycle_transition sha256 log subject from to a r).entries
          ≡ log.entries ++ e ∷ [])
        × (e.module_id ≡ subject)
        × (e.authorized ≡ a)
        × (e.reason ≡ some (transition_reason from to r))
  unfolding record_lifecycle_transition push_entry next_entry
  record_lifecycle_transition_lem log subject from to a r = (
    next_entry sha256 log subject none none a (some (transition_reason from to r)) none,
    refl,
    refl,
    refl,
    refl,
  )

  pub record_lifecycle_transition-verify_chain :
      (log : WormLog) (subject from to : Bytes) (a : Bool) (r : Option Bytes)
      → verify_chain sha256 log ≡ true
      → verify_chain sha256 (record_lifecycle_transition sha256 log subject from to a r) ≡ true
  unfolding record_lifecycle_transition
  record_lifecycle_transition-verify_chain log subject from to a r v =
      push_entry-verify_chain sha256 log subject none none a (some (transition_reason from to r))
        none v

  pub verify_chain_nil : verify_chain sha256 new ≡ true
  unfolding verify_chain verify_from
  verify_chain_nil = refl
