-- ===== src/CapabilityManager/Examples.antt =====
-- Tokens of capability-manager/src/lib.rs with a toy signature, and the theorems at them: the key is a
-- byte, and a message is signed by 64 copies of it; the text of bytes is the bytes themselves.
use runix.Base.Membership.{In}
use runix.Base.{
  Bytes, Option, [], ap, arith, bytes_eq, err, if◌then◌else◌, inl, length, none, ok, refl, some,
  suc, true, zero, ℕ, ◌%◌, ◌++◌, ◌==◌, ◌↔◌, ◌∷◌, ◌≡◌, ◌≤◌,
}
use runix.CapabilityManager.{
  CapabilityToken, Crypto, expired, is_fingerprint_revoked, is_revoked, issue, new, revoke,
  signature_fingerprint, verify,
}
use runix.CapabilityManager.Tokens.{IsSigned, verify-moved_bar, verify_iff}
use runix.CapabilityManager.Revocation.{revoke-respelled, revoked_all, revoked_iff}

abbrev copies : ℕ → ℕ → Bytes
copies zero b = []
copies (suc n) b = b ∷ copies n b

-- 255 in front of a text is another spelling of it.
abbrev decode : Bytes → Option Bytes
decode [] = some []
decode (b ∷ bs) = some (if b == 255 then bs else b ∷ bs)

abbrev toy : Crypto ℕ ℕ
toy = record {
  sign = λ key message. copies 64 (key % 255);
  verifies = λ key message signature. bytes_eq signature (copies 64 (key % 255));
  hex_encode = λ bytes. bytes;
  hex_decode = decode;
}

abbrev issued : CapabilityToken
issued = issue toy (b'a' ∷ []) (b'd' ∷ []) 1000 2000 [] 7

abbrev respelled : Bytes
respelled = 255 ∷ copies 64 7

issued-IsSigned : IsSigned toy 7 issued
unfolding issue
issued-IsSigned = record { decoded = copies 64 7; decodes = refl; is_long = refl; accepted = refl }

verify_iff_example :
    (verify toy issued 7 (b'd' ∷ []) 2000 ≡ ok tt)
    ↔ ((2000 ≤ issued.expires_at) × (issued.resource ≡ b'd' ∷ []) × IsSigned toy 7 issued)
verify_iff_example = verify_iff toy issued 7 (b'd' ∷ []) 2000

at_the_end : verify toy issued 7 (b'd' ∷ []) 2000 ≡ ok tt
unfolding issue
at_the_end = verify_iff_example.1 (omega arith, refl, issued-IsSigned)

too_late : verify toy issued 7 (b'd' ∷ []) 2001 ≡ err expired
unfolding verify issue
too_late = refl

verify-moved_bar_example :
    verify toy (record issued { subject = (b'a' ∷ []) ++ 124 ∷ b'b' ∷ [] }) 7 issued.resource 1500
    ≡ verify toy
        (record issued { subject = b'a' ∷ []; resource = (b'b' ∷ []) ++ 124 ∷ issued.resource })
        7
        ((b'b' ∷ []) ++ 124 ∷ issued.resource)
        1500
verify-moved_bar_example = verify-moved_bar toy issued (b'a' ∷ []) (b'b' ∷ []) 7 1500

fingerprint : signature_fingerprint toy (copies 8 1 ++ copies 8 0) ≡ none
unfolding signature_fingerprint
fingerprint = refl

revoked_iff_example :
    ((is_revoked (revoked_all toy new (issued ∷ [])) issued ≡ true)
      ↔ ((t : CapabilityToken) × In t (issued ∷ []) × (t.signature ≡ issued.signature)))
    × ((is_fingerprint_revoked (revoked_all toy new (issued ∷ [])) 9 ≡ true) ↔ (
        (t : CapabilityToken) × In t (issued ∷ [])
        × (signature_fingerprint toy t.signature ≡ some 9)))
revoked_iff_example = revoked_iff toy (issued ∷ []) issued 9

revoked : is_revoked (revoked_all toy new (issued ∷ [])) issued ≡ true
revoked = revoked_iff_example.0.1 (issued, inl refl, refl)

revoke-respelled_example :
    (verify toy (record issued { signature = respelled }) 7 (b'd' ∷ []) 1500
      ≡ verify toy issued 7 (b'd' ∷ []) 1500)
    × (is_revoked (revoke toy new issued) (record issued { signature = respelled })
        ≡ is_revoked new (record issued { signature = respelled }))
unfolding issue
revoke-respelled_example =
    revoke-respelled toy new issued respelled 7 (b'd' ∷ []) 1500 refl
      (λ e. absurd (omega (arith, ap length e)))
