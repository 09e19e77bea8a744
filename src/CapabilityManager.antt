-- ===== src/CapabilityManager.antt =====
-- capability-manager/src/lib.rs: signed capability tokens and their revocation. Ed25519 and the hex
-- encoding are parameters; a string is the list of its bytes, a set a list.
pub mod Tokens
pub mod Revocation
mod Examples
use runix.Base.{
  Bool, Bytes, List, Option, Result, [], any, bytes_eq, ensure, from_le, if◌then◌else◌, length, ltb,
  none, not, ok_or, some, take, ℕ, ◌++◌, ◌==◌, ◌>>=◌, ◌>>◌, ◌||◌, ◌∷◌,
}
use runix.Base.Texts.{decimal, is_char_boundary}

pub record CapabilityToken : Type 0 where
  pub subject : Bytes
  pub resource : Bytes
  pub issued_at : ℕ
  pub expires_at : ℕ
  pub key_id : Bytes
  pub signature : Bytes

pub data CapabilityError : Type 0 where
  expired wrong_resource invalid_signature : CapabilityError

-- "v1|<subject>|<resource>|<issued_at>|<expires_at>"
unfoldable pub canonical_string : CapabilityToken → Bytes
canonical_string t =
    118 ∷ 49 ∷ 124 ∷ []
    ++ t.subject
    ++ 124 ∷ []
    ++ t.resource
    ++ 124 ∷ []
    ++ decimal t.issued_at
    ++ 124 ∷ []
    ++ decimal t.expires_at

-- What the code uses of Ed25519 and of the hex encoding: signing, verifying, and both directions of the
-- encoding.
pub record Crypto (SigningKey VerifyingKey : Type 0) : Type 0 where
  pub sign : SigningKey → Bytes → Bytes
  pub verifies : VerifyingKey → Bytes → Bytes → Bool
  pub hex_encode : Bytes → Bytes
  pub hex_decode : Bytes → Option Bytes

module _ {SigningKey VerifyingKey : Type 0} (c : Crypto SigningKey VerifyingKey) where
  pub issue : Bytes → Bytes → ℕ → ℕ → Bytes → SigningKey → CapabilityToken
  unfolding canonical_string
  issue subject resource issued_at expires_at key_id key =
      let token : CapabilityToken = record {
        subject = subject;
        resource = resource;
        issued_at = issued_at;
        expires_at = expires_at;
        key_id = key_id;
        signature = [];
      } in
      record token { signature = c.hex_encode (c.sign key (canonical_string token)) }

  -- `hex::decode(..).ok().and_then(|bytes| bytes.try_into().ok())`, for 64 bytes.
  pub signature_bytes : Bytes → Option Bytes
  signature_bytes text = elim (c.hex_decode text) [
    | none ↦ none
    | some bytes ↦ if length bytes == 64 then some bytes else none
  ]

  pub verify : CapabilityToken → VerifyingKey → Bytes → ℕ → Result CapabilityError (Unit {0})
  unfolding signature_bytes canonical_string
  verify token key resource now = do
    ensure (not (ltb token.expires_at now)) expired
    ensure (bytes_eq token.resource resource) wrong_resource
    signature ← ok_or (signature_bytes token.signature) invalid_signature
    ensure (c.verifies key (canonical_string token) signature) invalid_signature

  -- The first 8 bytes of the decoded signature, as a little-endian number.
  pub signature_fingerprint : Bytes → Option ℕ
  unfolding is_char_boundary
  signature_fingerprint text =
      if ltb (length text) 16 || not (is_char_boundary text 16)
      then none
      else elim (c.hex_decode (take 16 text)) [
        | none ↦ none
        | some bytes ↦ if length bytes == 8 then some (from_le bytes) else none
      ]

pub record RevocationList : Type 0 where
  pub revoked_signatures : List Bytes
  pub revoked_fingerprints : List ℕ

abbrev pub new : RevocationList
new = record { revoked_signatures = []; revoked_fingerprints = [] }

pub revoke :
    {SigningKey VerifyingKey : Type 0}
    → Crypto SigningKey VerifyingKey
    → RevocationList
    → CapabilityToken
    → RevocationList
unfolding signature_fingerprint
revoke c list token = record {
  revoked_signatures = token.signature ∷ list.revoked_signatures;
  revoked_fingerprints = elim (signature_fingerprint c token.signature) [
    | some fp ↦ fp ∷ list.revoked_fingerprints
    | none ↦ list.revoked_fingerprints
  ];
}

pub is_revoked : RevocationList → CapabilityToken → Bool
is_revoked list token = any (λ s. bytes_eq s token.signature) list.revoked_signatures

pub is_fingerprint_revoked : RevocationList → ℕ → Bool
is_fingerprint_revoked list fingerprint = any (λ f. f == fingerprint) list.revoked_fingerprints
