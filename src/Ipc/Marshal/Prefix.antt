-- ===== src/Ipc/Marshal/Prefix.antt =====
-- Prefixes of the bytes of an answer of ipc/src/marshal.rs.
use mathlib.Core.List.{append-nil}
use runix.Base.{
  Bytes, Option-cases, [], ap, arith, inl, inr, length, length-append, refl, some, subst, sym, ℕ,
  ◌++◌, ◌∙◌, ◌∷◌, ◌≡◌, ◌≢◌, ◌≤◌, ◌⊎◌,
}
use runix.Ipc.Strings.{decode_payload, decode_payload_bounds, decode_string}
use runix.Ipc.Marshal.{
  MarshalError, MarshalResponse, ResponseDecode, bad_response, complete, decode_bytes, decode_error,
  decode_response, decode_status, encode_response, incomplete, malformed, max_json_len, other,
  policy_refused, present, status_bytes, status_error, status_response, status_string, unreachable,
  with_message,
}
use runix.Ipc.Marshal.RoundTrip.{IsResponse, decode_response-encode_response}
use runix.Ipc.Marshal.Stream.{decode_error_bounds, decode_status-append, decode_status_complete}

decode_bytes_bounds : (buf : Bytes) (r : Bytes × ℕ) → decode_bytes buf ≡ some r → r.1 ≤ length buf
unfolding decode_bytes
decode_bytes_bounds buf r h = (decode_payload_bounds 4 max_json_len buf r.0 r.1 h).2

pub decode_response_bounds :
    (buf : Bytes) (r : MarshalResponse × ℕ) → decode_response buf ≡ some r → r.1 ≤ length buf
unfolding decode_response
decode_response_bounds [] r h = absurd (ground arith)
decode_response_bounds (tag ∷ []) r h = absurd (ground arith)
decode_response_bounds (tag ∷ b ∷ rest) r h = elim (Option-cases (decode_bytes rest)) [
  | inl e ↦ elim (Option-cases (decode_error (b ∷ rest))) [
    | inl f ↦ absurd (ground arith)
    | inr (q, f) ↦ ground (arith, decode_error_bounds (b ∷ rest) q f)
  ]
  | inr (p, e) ↦ elim (Option-cases (decode_error (b ∷ rest))) [
    | inl f ↦ ground (arith, decode_bytes_bounds rest p e)
    | inr (q, f) ↦ ground (arith, decode_bytes_bounds rest p e, decode_error_bounds (b ∷ rest) q f)
  ]
]

status_bytes_of_decode :
    (buf : Bytes) (r : Bytes × ℕ) → decode_bytes buf ≡ some r → status_bytes buf ≡ present
unfolding decode_bytes decode_payload status_bytes
status_bytes_of_decode buf r h = ground arith

status_string_of_decode :
    (make : Bytes → MarshalError) (buf : Bytes) (r : MarshalError × ℕ)
    → with_message make buf ≡ some r
    → status_string buf ≡ present
unfolding with_message decode_string status_string
status_string_of_decode make buf r h = ground arith

status_error_of_decode :
    (buf : Bytes) (r : MarshalError × ℕ) → decode_error buf ≡ some r → status_error buf ≡ present
unfolding decode_error status_error
status_error_of_decode [] r h = absurd (ground arith)
status_error_of_decode (tag ∷ body) r h = ground (
  arith,
  status_string_of_decode unreachable body r,
  status_string_of_decode bad_response body r,
  status_string_of_decode other body r,
  status_string_of_decode policy_refused body r,
)

-- A message that is decoded is one that no more bytes are asked for.
status_of_decode :
    (buf : Bytes) (r : MarshalResponse × ℕ)
    → decode_response buf ≡ some r
    → status_response buf ≡ present
unfolding decode_response status_response
status_of_decode [] r h = absurd (ground arith)
status_of_decode (tag ∷ []) r h = absurd (ground arith)
status_of_decode (tag ∷ b ∷ rest) r h = elim (Option-cases (decode_bytes rest)) [
  | inl e ↦ elim (Option-cases (decode_error (b ∷ rest))) [
    | inl f ↦ absurd (ground arith)
    | inr (q, f) ↦ ground (arith, status_error_of_decode (b ∷ rest) q f)
  ]
  | inr (p, e) ↦ elim (Option-cases (decode_error (b ∷ rest))) [
    | inl f ↦ ground (arith, status_bytes_of_decode rest p e)
    | inr (q, f) ↦
        ground (arith, status_bytes_of_decode rest p e, status_error_of_decode (b ∷ rest) q f)
  ]
]

decode_of_status :
    (buf : Bytes) (r : MarshalResponse) (n : ℕ)
    → decode_status buf ≡ complete r n
    → decode_response buf ≡ some (r, n)
unfolding decode_status
decode_of_status buf r n h = ground arith

whole :
    (r : MarshalResponse) (rest : Bytes)
    → IsResponse r
    → decode_status (encode_response r ++ rest) ≡ complete r (length (encode_response r))
whole r rest v =
    let d = decode_response-encode_response r rest v in
    decode_status_complete (encode_response r ++ rest) r (length (encode_response r))
      (status_of_decode (encode_response r ++ rest) (r, length (encode_response r)) d) d

response_cases : (d : ResponseDecode) → (d ≡ incomplete) ⊎ (d ≢ incomplete)
response_cases incomplete = inl refl
response_cases (complete r n) = inr (λ e. cc)
response_cases malformed = inr (λ e. cc)

-- The bytes of an answer that fits, cut anywhere before their end, are asked to be continued; all of
-- them, whatever follows, are that answer.
pub decode_status-encode_response :
    (r : MarshalResponse)
    → IsResponse r
    → ((pre post : Bytes) (c : ℕ)
        → encode_response r ≡ pre ++ c ∷ post
        → decode_status pre ≡ incomplete)
      × ((rest : Bytes)
          → decode_status (encode_response r ++ rest) ≡ complete r (length (encode_response r)))
decode_status-encode_response r v = (
  λ pre post c e. elim (response_cases (decode_status pre)) [
    | inl q ↦ q
    | inr q ↦
        let at_end : decode_status (encode_response r) ≡ complete r (length (encode_response r)) =
          subst (λ b. decode_status b ≡ complete r (length (encode_response r)))
            (append-nil (encode_response r)) (whole r [] v) in
        let early : decode_status pre ≡ complete r (length (encode_response r)) =
          sym (decode_status-append pre (c ∷ post) q) ∙ ap decode_status (sym e) ∙ at_end in
        let read =
          decode_response_bounds pre (r, length (encode_response r))
            (decode_of_status pre r (length (encode_response r)) early) in
        absurd (omega (arith, ap length e, length-append pre (c ∷ post), read))
  ],
  λ rest. whole r rest v,
)
