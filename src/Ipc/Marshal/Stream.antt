-- ===== src/Ipc/Marshal/Stream.antt =====
-- Reading an answer of ipc/src/marshal.rs that arrives piece by piece.
use runix.Base.{
  Bytes, Option-cases, [], arith, from_le, inl, inr, is_some, length, length-append, refl,
  slice-append_le, some, sym, take, take-append_le, true, ℕ, ◌++◌, ◌+◌, ◌∙◌, ◌∷◌, ◌≡◌, ◌≢◌, ◌≤◌,
  ◌⊎◌,
}
use runix.Ipc.Strings.{
  decode_payload, decode_payload-append, decode_string, decode_string-append, decode_string_bounds,
}
use runix.Ipc.Marshal.{
  MarshalError, MarshalResponse, Step, bad_response, complete, decode_bytes, decode_error,
  decode_response, decode_status, incomplete, max_json_len, max_message_len, more_needed, never,
  other, policy_refused, present, status_bytes, status_error, status_response, status_string,
  unreachable, with_message,
}

status_bytes-append :
    (buf more : Bytes)
    → status_bytes buf ≢ more_needed
    → status_bytes (buf ++ more) ≡ status_bytes buf
unfolding status_bytes
status_bytes-append buf more h = ground (arith, length-append buf more, take-append_le 4 buf more)

status_string-append :
    (buf more : Bytes)
    → status_string buf ≢ more_needed
    → status_string (buf ++ more) ≡ status_string buf
unfolding status_string
status_string-append buf more h = ground (
  arith,
  length-append buf more,
  take-append_le 2 buf more,
  slice-append_le 2 (from_le (take 2 buf)) buf more,
)

status_error-append :
    (buf more : Bytes)
    → status_error buf ≢ more_needed
    → status_error (buf ++ more) ≡ status_error buf
unfolding status_error
status_error-append [] more h = absurd (h refl)
status_error-append (tag ∷ body) more h = ground (arith, status_string-append body more)

status_response-append :
    (buf more : Bytes)
    → status_response buf ≢ more_needed
    → status_response (buf ++ more) ≡ status_response buf
unfolding status_response
status_response-append [] more h = absurd (h refl)
status_response-append (tag ∷ []) more h = ground (arith, status_error-append [] more)
status_response-append (tag ∷ b ∷ rest) more h =
    ground (arith, status_error-append (b ∷ rest) more, status_bytes-append rest more)

with_message-append :
    (make : Bytes → MarshalError) (buf more : Bytes) (r : MarshalError × ℕ)
    → with_message make buf ≡ some r
    → with_message make (buf ++ more) ≡ some r
unfolding with_message
with_message-append make buf more r h = elim (Option-cases (decode_string max_message_len buf)) [
  | inl e ↦ absurd (ground arith)
  | inr (p, e) ↦ ground (arith, e, decode_string-append max_message_len buf more p e)
]

decode_error-append :
    (buf more : Bytes) (r : MarshalError × ℕ)
    → decode_error buf ≡ some r
    → decode_error (buf ++ more) ≡ some r
unfolding decode_error
decode_error-append [] more r h = absurd (ground arith)
decode_error-append (tag ∷ body) more r h = ground (
  arith,
  with_message-append unreachable body more r,
  with_message-append bad_response body more r,
  with_message-append other body more r,
  with_message-append policy_refused body more r,
)

decode_bytes-append :
    (buf more : Bytes) (r : Bytes × ℕ)
    → decode_bytes buf ≡ some r
    → decode_bytes (buf ++ more) ≡ some r
unfolding decode_bytes
decode_bytes-append buf more r h = decode_payload-append 4 max_json_len buf more r h

decode_response-append :
    (buf more : Bytes) (r : MarshalResponse × ℕ)
    → decode_response buf ≡ some r
    → decode_response (buf ++ more) ≡ some r
unfolding decode_response
decode_response-append [] more r h = absurd (ground arith)
decode_response-append (tag ∷ []) more r h = absurd (ground arith)
decode_response-append (tag ∷ b ∷ rest) more r h = elim (Option-cases (decode_bytes rest)) [
  | inl e ↦ elim (Option-cases (decode_error (b ∷ rest))) [
    | inl f ↦ absurd (ground arith)
    | inr (q, f) ↦ ground (arith, decode_error-append (b ∷ rest) more q f)
  ]
  | inr (p, e) ↦ elim (Option-cases (decode_error (b ∷ rest))) [
    | inl f ↦ ground (arith, decode_bytes-append rest more p e)
    | inr (q, f) ↦
        ground (arith, decode_bytes-append rest more p e, decode_error-append (b ∷ rest) more q f)
  ]
]

-- A message that has arrived is decoded.
decode_bytes_complete :
    (buf : Bytes) → status_bytes buf ≡ present → is_some (decode_bytes buf) ≡ true
unfolding status_bytes decode_bytes decode_payload
decode_bytes_complete buf h = ground arith

with_message_complete :
    (make : Bytes → MarshalError) (buf : Bytes)
    → status_string buf ≡ present
    → is_some (with_message make buf) ≡ true
unfolding status_string with_message decode_string
with_message_complete make buf h = ground arith

decode_error_complete :
    (buf : Bytes) → status_error buf ≡ present → is_some (decode_error buf) ≡ true
unfolding status_error decode_error
decode_error_complete [] h = absurd (ground arith)
decode_error_complete (tag ∷ body) h = ground (
  arith,
  with_message_complete unreachable body,
  with_message_complete bad_response body,
  with_message_complete other body,
  with_message_complete policy_refused body,
)

decode_response_complete :
    (buf : Bytes) → status_response buf ≡ present → is_some (decode_response buf) ≡ true
unfolding status_response decode_response
decode_response_complete [] h = absurd (ground arith)
decode_response_complete (tag ∷ []) h = absurd (ground arith)
decode_response_complete (tag ∷ b ∷ rest) h =
    ground (arith, decode_error_complete (b ∷ rest), decode_bytes_complete rest)

Step-cases : (s : Step) → (s ≡ more_needed) ⊎ ((s ≡ present) ⊎ (s ≡ never))
Step-cases more_needed = inl refl
Step-cases present = inr (inl refl)
Step-cases never = inr (inr refl)

more_needed_ne : (s : Step) → s ≡ present ⊎ s ≡ never → s ≢ more_needed
more_needed_ne s (inl e) q = cc
more_needed_ne s (inr e) q = cc

pub decode_status_complete :
    (buf : Bytes) (r : MarshalResponse) (n : ℕ)
    → status_response buf ≡ present
    → decode_response buf ≡ some (r, n)
    → decode_status buf ≡ complete r n
unfolding decode_status
decode_status_complete buf r n c d = rw (decode_status, c, d) refl

-- Once the reader does not ask for more bytes, no bytes that arrive later change what it answers.
pub decode_status-append :
    (buf more : Bytes)
    → decode_status buf ≢ incomplete
    → decode_status (buf ++ more) ≡ decode_status buf
unfolding decode_status
decode_status-append buf more h = elim (Step-cases (status_response buf)) [
  | inl e ↦ absurd (h (rw (decode_status, e) refl))
  | inr (inr e) ↦
      let later =
        status_response-append buf more (more_needed_ne (status_response buf) (inr e)) ∙ e in
      rw (decode_status, e, later) refl
  | inr (inl e) ↦
      let later =
        status_response-append buf more (more_needed_ne (status_response buf) (inl e)) ∙ e in
      elim (Option-cases (decode_response buf)) [
        | inl d ↦ absurd (ground (arith, decode_response_complete buf e))
        | inr ((r, n), d) ↦
            decode_status_complete (buf ++ more) r n later
              (decode_response-append buf more (r, n) d)
            ∙ sym (decode_status_complete buf r n e d)
      ]
]

with_message_bounds :
    (make : Bytes → MarshalError) (buf : Bytes) (r : MarshalError × ℕ)
    → with_message make buf ≡ some r
    → r.1 ≤ length buf + 1
unfolding with_message
with_message_bounds make buf r h = elim (Option-cases (decode_string max_message_len buf)) [
  | inl e ↦ absurd (ground arith)
  | inr ((s, n), e) ↦ ground (arith, decode_string_bounds max_message_len buf s n e)
]

pub decode_error_bounds :
    (buf : Bytes) (r : MarshalError × ℕ) → decode_error buf ≡ some r → r.1 ≤ length buf
unfolding decode_error
decode_error_bounds [] r h = absurd (ground arith)
decode_error_bounds (tag ∷ body) r h = ground (
  arith,
  with_message_bounds unreachable body r,
  with_message_bounds bad_response body r,
  with_message_bounds other body r,
  with_message_bounds policy_refused body r,
)
