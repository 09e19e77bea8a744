-- ===== src/CitadelIntegration/WormLog/Tamper.antt =====
-- What an evidence log of citadel-integration/src/lib.rs that verifies commits to, and what it does not.
use mathlib.Core.List.{append_assoc}
use runix.Base.Membership.{In}
use runix.Base.{
  Bool-cases, Bytes, List, [], ap, ap₂, arith, bytes_eq, bytes_eq_iff, inl, inr, is_some, le_bytes,
  length, map, none, refl, some, sym, true, ◌++◌, ◌∙◌, ◌∷◌, ◌≡◌, ◌≢◌, ◌⊎◌,
}
use runix.CitadelIntegration.WormLog.{
  WormEntry, WormLog, bytes_of, compute_hash, flag, hashed, hashed_entry, last_hash, outcome_str,
  tier_str, verify_chain, verify_from, zeros,
}
use runix.CitadelIntegration.WormLog.Chain.{Follows, verify_from_cons}

-- An entry of each list, which hash different bytes to one digest.
abbrev pub Collision : (Bytes → Bytes) → List WormEntry → List WormEntry → Type 0
Collision sha256 xs ys =
    (x : WormEntry) × (y : WormEntry) × In x xs
    × In y ys
    × (hashed_entry x ≢ hashed_entry y)
    × (sha256 (hashed_entry x) ≡ sha256 (hashed_entry y))

-- A digest has 32 bytes.
abbrev pub DigestLength : (Bytes → Bytes) → Type 0
DigestLength sha256 = (m : Bytes) → length (sha256 m) ≡ 32

append_inj : (p q a b : Bytes) → length p ≡ length q → p ++ a ≡ q ++ b → p ≡ q
append_inj [] [] a b n e = refl
append_inj [] (y ∷ q) a b n e = absurd (omega arith)
append_inj (x ∷ p) [] a b n e = absurd (omega arith)
append_inj (x ∷ p) (y ∷ q) a b n e =
    let first : x ≡ y = cc in
    let rest : p ++ a ≡ q ++ b = cc in
    ap₂ (λ s t. s ∷ t) first (append_inj p q a b (omega arith) rest)

-- What is hashed after the previous hash.
abbrev after_prev_hash : WormEntry → Bytes
after_prev_hash e =
    le_bytes 8 e.seq
    ++ e.module_id
    ++ flag (is_some e.instance_id)
    ++ bytes_of (λ s. s) e.instance_id
    ++ flag (is_some e.tier)
    ++ bytes_of tier_str e.tier
    ++ flag e.authorized
    ++ bytes_of (λ s. s) e.reason
    ++ flag (is_some e.shadow_marshal)
    ++ bytes_of outcome_str e.shadow_marshal

hashed_entry_split : (e : WormEntry) → hashed_entry e ≡ e.prev_hash ++ after_prev_hash e
unfolding hashed_entry hashed
hashed_entry_split e = simp append_assoc

hashed_entry-prev_hash :
    (x y : WormEntry)
    → length x.prev_hash ≡ length y.prev_hash
    → hashed_entry x ≡ hashed_entry y
    → x.prev_hash ≡ y.prev_hash
hashed_entry-prev_hash x y n e =
    append_inj x.prev_hash y.prev_hash (after_prev_hash x) (after_prev_hash y) n
      (sym (hashed_entry_split x) ∙ e ∙ hashed_entry_split y)

module _ (sha256 : Bytes → Bytes) where
  same_or_not : (x y : Bytes) → (x ≢ y) ⊎ (x ≡ y)
  same_or_not x y = elim (Bool-cases (bytes_eq x y)) [
    | inl t ↦ inr ((bytes_eq_iff x y).0 t)
    | inr f ↦ inl (λ q. absurd (ground (arith, (bytes_eq_iff x y).1 q)))
  ]

  -- A collision further on in the lists.
  Collision-cons :
      (x y : WormEntry) (xs ys : List WormEntry)
      → Collision sha256 xs ys
      → Collision sha256 (x ∷ xs) (y ∷ ys)
  Collision-cons x y xs ys (u, v, i, j, ne, e) = (u, v, inr i, inr j, ne, e)

  -- One step back: entries with one hash hash the same bytes and follow the same hash.
  back :
      (h k : Bytes) (x y : WormEntry) (xs ys : List WormEntry)
      → length h ≡ length k
      → Follows sha256 h x
      → Follows sha256 k y
      → x.entry_hash ≡ y.entry_hash
      → Collision sha256 (x ∷ xs) (y ∷ ys) ⊎ ((h ≡ k) × (hashed_entry x ≡ hashed_entry y))
  back h k x y xs ys n f g e = elim (same_or_not (hashed_entry x) (hashed_entry y)) [
    | inl ne ↦ inl (x, y, inl refl, inl refl, ne, sym f.1 ∙ e ∙ g.1)
    | inr q ↦
        let prevs = hashed_entry-prev_hash x y (ap length f.0 ∙ n ∙ sym (ap length g.0)) q in
        inr (sym f.0 ∙ prevs ∙ g.0, q)
  ]

  commits_from :
      DigestLength sha256
      → (h k : Bytes) (xs ys : List WormEntry) → length h ≡ length k
      → length xs ≡ length ys
      → verify_from sha256 h xs ≡ true
      → verify_from sha256 k ys ≡ true
      → last_hash h xs ≡ last_hash k ys
      → Collision sha256 xs ys ⊎ ((h ≡ k) × (map hashed_entry xs ≡ map hashed_entry ys))
  commits_from d h k [] [] n m v w e = inr (e, refl)
  commits_from d h k [] (y ∷ ys) n m v w e = absurd (omega arith)
  commits_from d h k (x ∷ xs) [] n m v w e = absurd (omega arith)
  commits_from d h k (x ∷ xs) (y ∷ ys) n m v w e =
      let (f, v2) = (verify_from_cons sha256 h x xs).0 v in
      let (g, w2) = (verify_from_cons sha256 k y ys).0 w in
      let digests : length x.entry_hash ≡ length y.entry_hash =
        ap length f.1 ∙ d (hashed_entry x) ∙ sym (d (hashed_entry y)) ∙ sym (ap length g.1) in
      elim (commits_from d x.entry_hash y.entry_hash xs ys digests (omega arith) v2 w2 e) [
        | inl c ↦ inl (Collision-cons x y xs ys c)
        | inr (same, rest) ↦ elim (back h k x y xs ys n f g same) [
          | inl c ↦ inl c
          | inr (prev, q) ↦ inr (prev, ap₂ (λ a b. a ∷ b) q rest)
        ]
      ]

  -- With digests of 32 bytes, two logs of one length that verify and end in the same hash hash the
  -- same bytes for every entry, or an entry of the one and an entry of the other hash different bytes to
  -- one digest.
  pub verify_chain-commits :
      (a b : WormLog)
      → DigestLength sha256
      → length a.entries ≡ length b.entries
      → verify_chain sha256 a ≡ true
      → verify_chain sha256 b ≡ true
      → last_hash (zeros 32) a.entries ≡ last_hash (zeros 32) b.entries
      → Collision sha256 a.entries b.entries
        ⊎ (map hashed_entry a.entries ≡ map hashed_entry b.entries)
  unfolding verify_chain
  verify_chain-commits a b d n v w e =
      elim (commits_from d (zeros 32) (zeros 32) a.entries b.entries refl n v w e) [
        | inl c ↦ inl c
        | inr (_, q) ↦ inr q
      ]

  missing_reason_from :
      (h : Bytes) (xs ys : List WormEntry) (e : WormEntry)
      → e.reason ≡ none
      → verify_from sha256 h (xs ++ record e { reason = some [] } ∷ ys)
        ≡ verify_from sha256 h (xs ++ e ∷ ys)
  unfolding verify_from compute_hash hashed
  missing_reason_from h [] ys e q = rw q
  missing_reason_from h (x ∷ xs) ys e q = rw (missing_reason_from x.entry_hash xs ys e q)

  -- A reason that is missing and an empty one are hashed alike: at any position, replacing the first
  -- by the second is not seen by the verification.
  pub verify_chain-missing_reason :
      (xs ys : List WormEntry) (e : WormEntry)
      → e.reason ≡ none
      → verify_chain sha256 (record { entries = xs ++ record e { reason = some [] } ∷ ys })
        ≡ verify_chain sha256 (record { entries = xs ++ e ∷ ys })
  unfolding verify_chain
  verify_chain-missing_reason xs ys e q = missing_reason_from (zeros 32) xs ys e q
