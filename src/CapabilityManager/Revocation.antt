-- ===== src/CapabilityManager/Revocation.antt =====
-- capability-manager/src/lib.rs: which tokens and fingerprints a revocation list answers for.
use runix.Base.Membership.{In}
use runix.Base.{
  Bool-cases, Bytes, List, Option-cases, [], arith, bytes_eq, bytes_eq_iff, inl, inr, refl, some,
  subst, sym, true, ℕ, ◌==◌, ◌↔◌, ◌∷◌, ◌≡◌, ◌≢◌,
}
use runix.CapabilityManager.{
  CapabilityToken, Crypto, RevocationList, canonical_string, is_fingerprint_revoked, is_revoked,
  new, revoke, signature_bytes, signature_fingerprint, verify,
}

module _ {SigningKey VerifyingKey : Type 0} (c : Crypto SigningKey VerifyingKey) where
  -- Tokens revoked one after the other, the last of the list first.
  abbrev pub revoked_all : RevocationList → List CapabilityToken → RevocationList
  revoked_all list [] = list
  revoked_all list (t ∷ ts) = revoke c (revoked_all list ts) t

  signed-In :
      (ts : List CapabilityToken) (token : CapabilityToken)
      → (is_revoked (revoked_all new ts) token ≡ true)
        ↔ ((t : CapabilityToken) × In t ts × (t.signature ≡ token.signature))
  unfolding is_revoked revoke
  signed-In [] token = (λ h. absurd (ground arith), λ (t, m, e). absurd m)
  signed-In (t ∷ ts) token =
      let rest = signed-In ts token in
      let same = bytes_eq_iff t.signature token.signature in
      (
        λ h. elim (Bool-cases (bytes_eq t.signature token.signature)) [
          | inl e ↦ (t, inl refl, same.0 e)
          | inr e ↦ let (u, m, f) = rest.0 (ground arith) in (u, inr m, f)
        ],
        λ (u, m, f). elim m [
          | inl e ↦ let q = same.1 (subst (λ v. v.signature ≡ token.signature) e f) in ground arith
          | inr n ↦ let q = rest.1 (u, n, f) in ground arith
        ],
      )

  first :
      (u t : CapabilityToken) (fp : ℕ)
      → u ≡ t
      → signature_fingerprint c u.signature ≡ some fp
      → signature_fingerprint c t.signature ≡ some fp
  first u t fp q f = subst (λ v. signature_fingerprint c v.signature ≡ some fp) q f

  fingerprinted-In :
      (ts : List CapabilityToken) (fp : ℕ)
      → (is_fingerprint_revoked (revoked_all new ts) fp ≡ true)
        ↔ ((t : CapabilityToken) × In t ts × (signature_fingerprint c t.signature ≡ some fp))
  unfolding is_fingerprint_revoked revoke
  fingerprinted-In [] fp = (λ h. absurd (ground arith), λ (t, m, e). absurd m)
  fingerprinted-In (t ∷ ts) fp =
      let rest = fingerprinted-In ts fp in
      elim (Option-cases (signature_fingerprint c t.signature)) [
        | inl e ↦ (
          λ h. let (u, m, f) = rest.0 (ground arith) in (u, inr m, f),
          λ (u, m, f). elim m [
            | inl q ↦ let has = first u t fp q f in absurd (ground arith)
            | inr n ↦ let r = rest.1 (u, n, f) in ground arith
          ],
        )
        | inr (g, e) ↦ (
          λ h. elim (Bool-cases (g == fp)) [
            | inl q ↦ (t, inl refl, ground arith)
            | inr q ↦ let (u, m, f) = rest.0 (ground arith) in (u, inr m, f)
          ],
          λ (u, m, f). elim m [
            | inl q ↦ let has = first u t fp q f in ground arith
            | inr n ↦ let r = rest.1 (u, n, f) in ground arith
          ],
        )
      ]

  -- Once tokens are revoked, one after the other, from the empty list, a token is revoked exactly when one
  -- of them has its signature text, and a fingerprint exactly when it is that of one of them.
  pub revoked_iff :
      (ts : List CapabilityToken) (token : CapabilityToken) (fp : ℕ)
      → ((is_revoked (revoked_all new ts) token ≡ true)
          ↔ ((t : CapabilityToken) × In t ts × (t.signature ≡ token.signature)))
        × ((is_fingerprint_revoked (revoked_all new ts) fp ≡ true)
            ↔ ((t : CapabilityToken) × In t ts × (signature_fingerprint c t.signature ≡ some fp)))
  revoked_iff ts token fp = (signed-In ts token, fingerprinted-In ts fp)

  -- If two texts decode to the same bytes, two tokens that differ only in having one or the other as their
  -- signature are verified alike; and if the texts differ, revoking the first does not revoke the second.
  pub revoke-respelled :
      (list : RevocationList) (token : CapabilityToken) (text : Bytes) (key : VerifyingKey)
      (resource : Bytes) (now : ℕ)
      → c.hex_decode text ≡ c.hex_decode token.signature
      → text ≢ token.signature
      → (verify c (record token { signature = text }) key resource now
          ≡ verify c token key resource now)
        × (is_revoked (revoke c list token) (record token { signature = text })
            ≡ is_revoked list (record token { signature = text }))
  unfolding verify signature_bytes canonical_string is_revoked revoke
  revoke-respelled list token text key resource now same differ =
      let same_bytes : signature_bytes c text ≡ signature_bytes c token.signature =
        rw (signature_bytes, same) refl in
      let other = (bytes_eq_iff token.signature text).0 in
      (
        rw (same_bytes) refl,
        elim (Bool-cases (bytes_eq token.signature text)) [
          | inl e ↦ absurd (differ (sym (other e)))
          | inr e ↦ ground arith
        ],
      )
