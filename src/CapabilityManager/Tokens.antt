-- ===== src/CapabilityManager/Tokens.antt =====
-- capability-manager/src/lib.rs: what a token that is verified says, and what its signed bytes leave
-- open.
use mathlib.Core.List.{append_assoc}
use runix.Base.{
  Bytes, Option-cases, arith, bytes_eq_iff, inl, inr, length, ok, refl, some, true, ℕ, ◌++◌, ◌↔◌,
  ◌∷◌, ◌≡◌, ◌≤◌,
}
use runix.CapabilityManager.{
  CapabilityToken, Crypto, canonical_string, issue, signature_bytes, verify,
}

-- What the key accepts of a token: 64 bytes whose hex text is its signature, over its signed bytes.
pub record IsSigned {SigningKey VerifyingKey : Type 0} (c : Crypto SigningKey VerifyingKey)
    (key : VerifyingKey) (token : CapabilityToken) : Type 0 where
  pub decoded : Bytes
  pub decodes : c.hex_decode token.signature ≡ some decoded
  pub is_long : length decoded ≡ 64
  pub accepted : c.verifies key (canonical_string token) decoded ≡ true

module _ {SigningKey VerifyingKey : Type 0} (c : Crypto SigningKey VerifyingKey) where
  signature_bytes_of :
      (text sig : Bytes)
      → signature_bytes c text ≡ some sig
      → (c.hex_decode text ≡ some sig) × (length sig ≡ 64)
  unfolding signature_bytes
  signature_bytes_of text sig h = elim (Option-cases (c.hex_decode text)) [
    | inl e ↦ absurd (ground arith)
    | inr (bytes, e) ↦ ground arith
  ]

  signature_bytes_holds :
      (text sig : Bytes)
      → c.hex_decode text ≡ some sig
      → length sig ≡ 64
      → signature_bytes c text ≡ some sig
  unfolding signature_bytes
  signature_bytes_holds text sig d l = ground arith

  verified :
      (token : CapabilityToken) (key : VerifyingKey) (resource : Bytes) (now : ℕ)
      → verify c token key resource now ≡ ok tt
      → (now ≤ token.expires_at) × (token.resource ≡ resource) × IsSigned c key token
  unfolding verify
  verified token key resource now h = elim (Option-cases (signature_bytes c token.signature)) [
    | inl e ↦ absurd (ground arith)
    | inr (sig, e) ↦
        let (d, l) = signature_bytes_of token.signature sig e in
        (
          ground arith,
          (bytes_eq_iff token.resource resource).0 (ground arith),
          record { decoded = sig; decodes = d; is_long = l; accepted = ground arith },
        )
  ]

  verifies_if :
      (token : CapabilityToken) (key : VerifyingKey) (resource : Bytes) (now : ℕ)
      → now ≤ token.expires_at
      → token.resource ≡ resource
      → IsSigned c key token
      → verify c token key resource now ≡ ok tt
  unfolding verify
  verifies_if token key resource now t r s =
      let b = signature_bytes_holds token.signature s.decoded s.decodes s.is_long in
      let same = (bytes_eq_iff token.resource resource).1 r in let good = s.accepted in ground arith

  -- A token is verified exactly when it has not expired, is for this resource, and carries the hex text
  -- of 64 bytes that the key accepts over its signed bytes.
  pub verify_iff :
      (token : CapabilityToken) (key : VerifyingKey) (resource : Bytes) (now : ℕ)
      → (verify c token key resource now ≡ ok tt)
        ↔ ((now ≤ token.expires_at) × (token.resource ≡ resource) × IsSigned c key token)
  verify_iff token key resource now =
      (verified token key resource now, λ (t, r, s). verifies_if token key resource now t r s)

  -- If the hex text of bytes decodes to them, and the signature that a key makes has 64 bytes and is
  -- accepted by the verifying key, then an issued token is verified for its resource as long as it has not
  -- expired, and for no other resource and at no later time.
  pub verify-issue :
      (subject resource : Bytes) (issued_at expires_at : ℕ) (key_id : Bytes) (secret : SigningKey)
      (public : VerifyingKey) (asked : Bytes) (now : ℕ)
      → ((bytes : Bytes) → c.hex_decode (c.hex_encode bytes) ≡ some bytes)
      → ((message : Bytes) → length (c.sign secret message) ≡ 64)
      → ((message : Bytes) → c.verifies public message (c.sign secret message) ≡ true)
      → (verify c (issue c subject resource issued_at expires_at key_id secret) public asked now
          ≡ ok tt)
        ↔ ((now ≤ expires_at) × (resource ≡ asked))
  unfolding issue canonical_string
  verify-issue subject resource issued_at expires_at key_id secret public asked now hex long signs =
      let token = issue c subject resource issued_at expires_at key_id secret in
      (
        λ h. let (t, r, s) = verified token public asked now h in (t, r),
        λ (t, r). verifies_if token public asked now t r (record {
          decoded = c.sign secret (canonical_string token);
          decodes = hex (c.sign secret (canonical_string token));
          is_long = long (canonical_string token);
          accepted = signs (canonical_string token);
        }),
      )

  moved_bar :
      (token : CapabilityToken) (before after : Bytes)
      → canonical_string (record token { subject = before ++ 124 ∷ after })
        ≡ canonical_string
            (record token { subject = before; resource = after ++ 124 ∷ token.resource })
  unfolding canonical_string
  moved_bar token before after = simp (append_assoc)

  -- A token whose subject ends in a bar and more is verified, for its resource, exactly as the token that has
  -- the bar and what follows it at the start of the resource instead is for that one: the two have the
  -- same signed bytes.
  pub verify-moved_bar :
      (token : CapabilityToken) (before after : Bytes) (key : VerifyingKey) (now : ℕ)
      → verify c (record token { subject = before ++ 124 ∷ after }) key token.resource now
        ≡ verify c
            (record token { subject = before; resource = after ++ 124 ∷ token.resource })
            key
            (after ++ 124 ∷ token.resource)
            now
  unfolding verify
  verify-moved_bar token before after key now = ground (
    arith,
    moved_bar token before after,
    (bytes_eq_iff token.resource token.resource).1 refl,
    (bytes_eq_iff (after ++ 124 ∷ token.resource) (after ++ 124 ∷ token.resource)).1 refl,
  )
