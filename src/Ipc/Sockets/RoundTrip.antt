-- ===== src/Ipc/Sockets/RoundTrip.antt =====
-- What is decoded of a message of ipc/src/sockets.rs that was encoded, and of any buffer.
use runix.Ipc.Strings.{decode_payload, decode_payload_bounds, decode_payload_prefix}
use runix.Base.{
  Bytes, Option-cases, [], ap, arith, drop, inl, inr, le_bytes, length, length-drop, refl, some, ℕ,
  ◌++◌, ◌+◌, ◌<◌, ◌∷◌, ◌≡◌, ◌≤◌,
}
use runix.Ipc.Sockets.{
  SocketError, SocketRequest, SocketResponse, already_open, close, closed, connect, connect_failed,
  connect_refused, connected, decode_request, decode_response, encode_request, encode_response,
  error, error_byte, error_of, handle_payload, invalid_handle, invalid_length, max_payload_len,
  not_open, open_refused, open_socket, opened, received, recv, send, send_refused, sent,
  too_many_open,
}

-- The payload fits its limit and the numbers of two bytes fit them.
abbrev pub IsRequest : SocketRequest → Type 0
IsRequest open_socket = Unit {0}
IsRequest (connect handle ip remote_port local_port) = (remote_port < 65536) × (local_port < 65536)
IsRequest (send handle bytes) = length bytes ≤ max_payload_len
IsRequest (recv handle most) = most < 65536
IsRequest (close handle) = Unit {0}

abbrev pub IsResponse : SocketResponse → Type 0
IsResponse (sent handle len) = len < 65536
IsResponse (received handle bytes) = length bytes ≤ max_payload_len
IsResponse (connected handle) = Unit {0}
IsResponse (open_refused e) = Unit {0}
IsResponse (connect_refused handle e) = Unit {0}
IsResponse (send_refused handle e) = Unit {0}
IsResponse (opened handle) = Unit {0}
IsResponse (closed handle) = Unit {0}
IsResponse (error handle e) = Unit {0}

error_of-error_byte : (e : SocketError) → error_of (error_byte e) ≡ some e
unfolding error_of error_byte
error_of-error_byte already_open = refl
error_of-error_byte not_open = refl
error_of-error_byte invalid_length = refl
error_of-error_byte connect_failed = refl
error_of-error_byte too_many_open = refl
error_of-error_byte invalid_handle = refl

handle_payload_lem :
    (tag handle : ℕ) (bytes rest : Bytes)
    → length bytes ≤ max_payload_len
    → handle_payload (tag ∷ handle ∷ (le_bytes 2 (length bytes) ++ (bytes ++ rest)))
      ≡ some (handle, bytes, 2 + (2 + length bytes))
unfolding handle_payload
handle_payload_lem tag handle bytes rest h =
    ground (arith, decode_payload_prefix 2 max_payload_len bytes rest h (omega arith))

-- A request that fits is decoded as it was encoded, whatever follows it, and all its bytes are taken.
pub decode_request-encode_request :
    (r : SocketRequest) (rest : Bytes)
    → IsRequest r
    → decode_request (encode_request r ++ rest) ≡ some (r, length (encode_request r))
unfolding encode_request decode_request
decode_request-encode_request open_socket rest v = refl
decode_request-encode_request (connect handle (a, b, c, d) remote_port local_port) rest v =
    ground arith
decode_request-encode_request (send handle bytes) rest v =
    rw (handle_payload_lem 1 handle bytes rest v)
      (ap (λ n. some (send handle bytes, n)) (omega arith))
decode_request-encode_request (recv handle most) rest v = ground arith
decode_request-encode_request (close handle) rest v = ground arith

-- So is an answer.
pub decode_response-encode_response :
    (r : SocketResponse) (rest : Bytes)
    → IsResponse r
    → decode_response (encode_response r ++ rest) ≡ some (r, length (encode_response r))
unfolding encode_response decode_response
decode_response-encode_response (sent handle len) rest v = ground arith
decode_response-encode_response (received handle bytes) rest v =
    rw (handle_payload_lem 4 handle bytes rest v)
      (ap (λ n. some (received handle bytes, n)) (omega arith))
decode_response-encode_response (connected handle) rest v = ground arith
decode_response-encode_response (open_refused e) rest v = ground (arith, error_of-error_byte e)
decode_response-encode_response (connect_refused handle e) rest v =
    ground (arith, error_of-error_byte e)
decode_response-encode_response (send_refused handle e) rest v =
    ground (arith, error_of-error_byte e)
decode_response-encode_response (opened handle) rest v = ground arith
decode_response-encode_response (closed handle) rest v = ground arith
decode_response-encode_response (error handle e) rest v = ground (arith, error_of-error_byte e)

payload_bounds :
    (buf : Bytes) (r : ℕ × Bytes × ℕ)
    → handle_payload buf ≡ some r
    → (length r.1 ≤ max_payload_len) × (r.2 ≤ length buf)
unfolding handle_payload
payload_bounds buf r h = elim (Option-cases (decode_payload 2 max_payload_len (drop 2 buf))) [
  | inl e ↦ absurd (ground arith)
  | inr ((bytes, n), e) ↦
      ground
        (arith, decode_payload_bounds 2 max_payload_len (drop 2 buf) bytes n e, length-drop 2 buf)
]

abbrev pub IsBounded : SocketRequest → Type 0
IsBounded open_socket = Unit {0}
IsBounded (connect handle ip remote_port local_port) = Unit {0}
IsBounded (send handle bytes) = length bytes ≤ max_payload_len
IsBounded (recv handle most) = Unit {0}
IsBounded (close handle) = Unit {0}

-- Whatever bytes arrive, a request that is decoded lies in them, and its payload is within its limit.
pub decode_request_bounds :
    (buf : Bytes) (r : SocketRequest) (n : ℕ)
    → decode_request buf ≡ some (r, n)
    → (n ≤ length buf) × IsBounded r
unfolding decode_request
decode_request_bounds [] r n h = cc
decode_request_bounds (tag ∷ body) r n h = elim (Option-cases (handle_payload (tag ∷ body))) [
  | inl e ↦ ground (arith, e)
  | inr (p, e) ↦ ground (arith, e, payload_bounds (tag ∷ body) p e)
]
