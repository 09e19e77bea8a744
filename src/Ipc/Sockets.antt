-- ===== src/Ipc/Sockets.antt =====
-- ipc/src/sockets.rs: requests to the network driver and its answers.
pub mod RoundTrip
mod Examples
use runix.Base.Maybe.{guard, ◌>>=◌, ◌>>◌}
use runix.Base.{
  Bytes, Option, [], byte_at, drop, if◌then◌else◌, le_bytes, length, ltb, none, not, some, ℕ, ◌*◌,
  ◌++◌, ◌+◌, ◌==◌, ◌∷◌,
}
use runix.Ipc.Strings.{decode_payload}

abbrev pub max_payload_len : ℕ
max_payload_len = 4096

pub data SocketRequest : Type 0 where
  open_socket : SocketRequest
  connect : ℕ → ℕ × ℕ × ℕ × ℕ → ℕ → ℕ → SocketRequest
  send : ℕ → Bytes → SocketRequest
  recv : ℕ → ℕ → SocketRequest
  close : ℕ → SocketRequest

pub data SocketError : Type 0 where
  already_open not_open invalid_length connect_failed too_many_open invalid_handle : SocketError

-- In the order of the source; `…_refused` is `…Failed`, whose name an error has, and `received` is `Data`.
pub data SocketResponse : Type 0 where
  connected : ℕ → SocketResponse
  open_refused : SocketError → SocketResponse
  connect_refused : ℕ → SocketError → SocketResponse
  sent : ℕ → ℕ → SocketResponse
  send_refused : ℕ → SocketError → SocketResponse
  received : ℕ → Bytes → SocketResponse
  opened closed : ℕ → SocketResponse
  error : ℕ → SocketError → SocketResponse

-- `SocketError::to_byte`
pub error_byte : SocketError → ℕ
error_byte already_open = 0
error_byte not_open = 1
error_byte invalid_length = 2
error_byte connect_failed = 3
error_byte too_many_open = 4
error_byte invalid_handle = 5

-- `SocketError::from_byte`
pub error_of : ℕ → Option SocketError
error_of b =
    if b == 0
    then some already_open
    else if b == 1
    then some not_open
    else if b == 2
    then some invalid_length
    else if b == 3
    then some connect_failed
    else if b == 4
    then some too_many_open
    else if b == 5
    then some invalid_handle
    else none

-- `SocketRequest::encode`
pub encode_request : SocketRequest → Bytes
encode_request (connect handle (a, b, c, d) remote_port local_port) =
    0 ∷ handle ∷ a ∷ b ∷ c ∷ d ∷ (le_bytes 2 remote_port ++ le_bytes 2 local_port)
encode_request (send handle bytes) = 1 ∷ handle ∷ (le_bytes 2 (length bytes) ++ bytes)
encode_request (recv handle most) = 2 ∷ handle ∷ le_bytes 2 most
encode_request (close handle) = 3 ∷ handle ∷ []
encode_request open_socket = 4 ∷ []

-- The number in the two bytes from an index on.
word_at : Bytes → ℕ → ℕ
word_at buf i = byte_at buf i + 256 * byte_at buf (i + 1)

-- A handle and a payload, after the tag.
handle_payload : Bytes → Option (ℕ × Bytes × ℕ)
handle_payload buf = do
  guard (not (ltb (length buf) 4))
  (bytes, n) ← decode_payload 2 max_payload_len (drop 2 buf)
  some (byte_at buf 1, bytes, 2 + n)

-- `SocketRequest::decode`
pub decode_request : Bytes → Option (SocketRequest × ℕ)
unfolding word_at handle_payload
decode_request [] = none
decode_request (tag ∷ body) =
    let buf = tag ∷ body in
    if tag == 0
    then (guard (not (ltb (length buf) 10))
        >> some (
          connect (byte_at buf 1) (byte_at buf 2, byte_at buf 3, byte_at buf 4, byte_at buf 5)
              (word_at buf 6) (word_at buf 8),
          10,
        ))
    else if tag == 1
    then (handle_payload buf >>= λ (handle, bytes, n). some (send handle bytes, n))
    else if tag == 2
    then (guard (not (ltb (length buf) 4)) >> some (recv (byte_at buf 1) (word_at buf 2), 4))
    else if tag == 3
    then (guard (not (ltb (length buf) 2)) >> some (close (byte_at buf 1), 2))
    else if tag == 4
    then some (open_socket, 1)
    else none

-- `SocketResponse::encode`
pub encode_response : SocketResponse → Bytes
unfolding error_byte
encode_response (connected handle) = 0 ∷ handle ∷ []
encode_response (open_refused e) = 1 ∷ error_byte e ∷ []
encode_response (sent handle len) = 2 ∷ handle ∷ le_bytes 2 len
encode_response (send_refused handle e) = 3 ∷ handle ∷ error_byte e ∷ []
encode_response (received handle bytes) = 4 ∷ handle ∷ (le_bytes 2 (length bytes) ++ bytes)
encode_response (closed handle) = 5 ∷ handle ∷ []
encode_response (error handle e) = 6 ∷ handle ∷ error_byte e ∷ []
encode_response (opened handle) = 7 ∷ handle ∷ []
encode_response (connect_refused handle e) = 8 ∷ handle ∷ error_byte e ∷ []

-- An answer of a tag and a handle.
handle_only : (ℕ → SocketResponse) → Bytes → Option (SocketResponse × ℕ)
handle_only answer buf = guard (not (ltb (length buf) 2)) >> some (answer (byte_at buf 1), 2)

-- An answer of a tag, a handle and an error.
handle_error : (ℕ → SocketError → SocketResponse) → Bytes → Option (SocketResponse × ℕ)
unfolding error_of
handle_error answer buf =
    guard (not (ltb (length buf) 3))
    >> (error_of (byte_at buf 2) >>= λ e. some (answer (byte_at buf 1) e, 3))

-- `SocketResponse::decode`
pub decode_response : Bytes → Option (SocketResponse × ℕ)
unfolding word_at handle_payload handle_only handle_error error_of
decode_response [] = none
decode_response (tag ∷ body) =
    let buf = tag ∷ body in
    if tag == 0
    then handle_only connected buf
    else if tag == 1
    then (guard (not (ltb (length buf) 2))
        >> (error_of (byte_at buf 1) >>= λ e. some (open_refused e, 2)))
    else if tag == 2
    then (guard (not (ltb (length buf) 4)) >> some (sent (byte_at buf 1) (word_at buf 2), 4))
    else if tag == 3
    then handle_error send_refused buf
    else if tag == 4
    then (handle_payload buf >>= λ (handle, bytes, n). some (received handle bytes, n))
    else if tag == 5
    then handle_only closed buf
    else if tag == 6
    then handle_error error buf
    else if tag == 7
    then handle_only opened buf
    else if tag == 8
    then handle_error connect_refused buf
    else none
