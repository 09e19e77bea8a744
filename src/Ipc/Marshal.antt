-- ===== src/Ipc/Marshal.antt =====
-- ipc/src/marshal.rs: a request to the MARSHAL proxy, its answer, and the reading of an answer that
-- arrives piece by piece.
pub mod RoundTrip
pub mod Stream
pub mod Prefix
mod Examples
use runix.Base.Maybe.{◌>>=◌, ◌>>◌}
use runix.Base.{
  Bool, Bytes, Option, [], drop, false, from_le, if◌then◌else◌, is_some, le_bytes, leb, length, ltb,
  none, some, take, true, ℕ, ◌++◌, ◌+◌, ◌==◌, ◌∷◌,
}
use runix.Ipc.Strings.{decode_payload, decode_string, encode_string, is_utf8}

abbrev pub max_json_len : ℕ
max_json_len = 16384

abbrev pub max_message_len : ℕ
max_message_len = 256

-- `encode_bytes`
pub encode_bytes : Bytes → Bytes
encode_bytes bytes = le_bytes 4 (length bytes) ++ bytes

-- `decode_bytes`
pub decode_bytes : Bytes → Option (Bytes × ℕ)
decode_bytes buf = decode_payload 4 max_json_len buf

pub record MarshalRequest : Type 0 where
  pub kerkese_json : Bytes

-- `MarshalRequest::encode`
pub encode_request : MarshalRequest → Bytes
unfolding encode_bytes
encode_request r = encode_bytes r.kerkese_json

-- `MarshalRequest::decode`
pub decode_request : Bytes → Option (MarshalRequest × ℕ)
unfolding decode_bytes
decode_request buf = do (json, n) ← decode_bytes buf; some (record { kerkese_json = json }, n)

pub data MarshalOutcome : Type 0 where
  execute refuse hard_stop : MarshalOutcome

abbrev pub is_blocked : MarshalOutcome → Bool
is_blocked execute = false
is_blocked refuse = true
is_blocked hard_stop = true

-- `MarshalOutcome::to_byte`
pub outcome_byte : MarshalOutcome → ℕ
outcome_byte execute = 0
outcome_byte refuse = 1
outcome_byte hard_stop = 2

-- `MarshalOutcome::from_byte`
pub outcome_of : ℕ → Option MarshalOutcome
outcome_of b =
    if b == 0
    then some execute
    else if b == 1
    then some refuse
    else if b == 2
    then some hard_stop
    else none

pub data MarshalError : Type 0 where
  unreachable bad_response other policy_refused : Bytes → MarshalError
  timeout : MarshalError

-- `MarshalError::encode`, after its tag.
pub encode_error : MarshalError → Bytes
encode_error (unreachable msg) = 0 ∷ encode_string msg
encode_error timeout = 1 ∷ []
encode_error (bad_response msg) = 2 ∷ encode_string msg
encode_error (other msg) = 3 ∷ encode_string msg
encode_error (policy_refused msg) = 4 ∷ encode_string msg

-- An error with its message, after the tag.
pub with_message : (Bytes → MarshalError) → Bytes → Option (MarshalError × ℕ)
with_message make buf = do (msg, n) ← decode_string max_message_len buf; some (make msg, 1 + n)

-- `MarshalError::decode`
pub decode_error : Bytes → Option (MarshalError × ℕ)
unfolding with_message
decode_error [] = none
decode_error (tag ∷ body) =
    if tag == 0
    then with_message unreachable body
    else if tag == 1
    then some (timeout, 1)
    else if tag == 2
    then with_message bad_response body
    else if tag == 3
    then with_message other body
    else if tag == 4
    then with_message policy_refused body
    else none

-- `Decision` and `Error`.
pub data MarshalResponse : Type 0 where
  decision : MarshalOutcome → Bytes → MarshalResponse
  failure : MarshalError → MarshalResponse

-- `MarshalResponse::encode`
pub encode_response : MarshalResponse → Bytes
unfolding outcome_byte encode_bytes encode_error
encode_response (decision outcome json) = 0 ∷ outcome_byte outcome ∷ encode_bytes json
encode_response (failure e) = 1 ∷ encode_error e

-- `MarshalResponse::decode`
pub decode_response : Bytes → Option (MarshalResponse × ℕ)
unfolding outcome_of decode_bytes decode_error
decode_response [] = none
decode_response (tag ∷ body) =
    if tag == 0
    then elim body [
      | [] ↦ none
      | b ∷ rest ↦ outcome_of b >>= λ outcome.
          decode_bytes rest >>= λ (json, n). some (decision outcome json, 2 + n)
    ]
    else if tag == 1
    then (decode_error body >>= λ (e, n). some (failure e, 1 + n))
    else none

-- `Step<T>` without its value: more bytes are needed, the bytes are there, or no more bytes can help.
pub data Step : Type 0 where
  more_needed present never : Step

-- `status_bytes`
pub status_bytes : Bytes → Step
status_bytes buf =
    if ltb (length buf) 4
    then more_needed
    else if ltb max_json_len (from_le (take 4 buf))
    then never
    else if ltb (length buf) (4 + from_le (take 4 buf))
    then more_needed
    else present

-- `status_string`
pub status_string : Bytes → Step
status_string buf =
    if ltb (length buf) 2
    then more_needed
    else if ltb max_message_len (from_le (take 2 buf))
    then never
    else if ltb (length buf) (2 + from_le (take 2 buf))
    then more_needed
    else if is_utf8 (take (from_le (take 2 buf)) (drop 2 buf))
    then present
    else never

-- `MarshalError::status`
pub status_error : Bytes → Step
unfolding status_string
status_error [] = more_needed
status_error (tag ∷ body) =
    if tag == 1 then present else if leb tag 4 then status_string body else never

pub data ResponseDecode : Type 0 where
  complete : MarshalResponse → ℕ → ResponseDecode
  incomplete malformed : ResponseDecode

-- The verdict of `decode_status` on a buffer that is not empty.
pub status_response : Bytes → Step
unfolding status_bytes status_error outcome_of
status_response [] = more_needed
status_response (tag ∷ body) =
    if tag == 0
    then elim body [
      | [] ↦ more_needed
      | b ∷ rest ↦ if is_some (outcome_of b) then status_bytes rest else never
    ]
    else if tag == 1
    then status_error body
    else never

-- `MarshalResponse::decode_status`
pub decode_status : Bytes → ResponseDecode
unfolding status_response
decode_status buf = elim (status_response buf) [
  | never ↦ malformed
  | more_needed ↦ incomplete
  | present ↦ elim (decode_response buf) [ some (r, n) ↦ complete r n | none ↦ malformed ]
]
