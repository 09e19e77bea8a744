-- ===== src/Ipc/Marshal/RoundTrip.antt =====
-- What is decoded of a message of ipc/src/marshal.rs that was encoded.
use runix.Base.{Bytes, arith, length, refl, some, ◌++◌, ◌+◌, ◌≡◌, ◌≤◌}
use runix.Ipc.Strings.{IsString, decode_payload_prefix, decode_string-encode_string, encode_string}
use runix.Ipc.Marshal.{
  MarshalError, MarshalOutcome, MarshalResponse, bad_response, decision, decode_bytes, decode_error,
  decode_response, encode_bytes, encode_error, encode_response, execute, failure, hard_stop,
  max_json_len, max_message_len, other, outcome_byte, outcome_of, policy_refused, refuse, timeout,
  unreachable, with_message,
}

abbrev pub IsError : MarshalError → Type 0
IsError (unreachable msg) = IsString max_message_len msg
IsError timeout = Unit {0}
IsError (bad_response msg) = IsString max_message_len msg
IsError (other msg) = IsString max_message_len msg
IsError (policy_refused msg) = IsString max_message_len msg

-- The JSON fits its limit; a message is UTF-8 and fits its limit.
abbrev pub IsResponse : MarshalResponse → Type 0
IsResponse (decision outcome json) = length json ≤ max_json_len
IsResponse (failure e) = IsError e

pub decode_bytes-encode_bytes :
    (bytes rest : Bytes)
    → length bytes ≤ max_json_len
    → decode_bytes (encode_bytes bytes ++ rest) ≡ some (bytes, 4 + length bytes)
unfolding decode_bytes encode_bytes
decode_bytes-encode_bytes bytes rest h =
    decode_payload_prefix 4 max_json_len bytes rest h (omega arith)

pub length-encode_bytes : (bytes : Bytes) → length (encode_bytes bytes) ≡ 4 + length bytes
unfolding encode_bytes
length-encode_bytes bytes = omega arith

with_message_lem :
    (make : Bytes → MarshalError) (msg rest : Bytes)
    → IsString max_message_len msg
    → with_message make (encode_string msg ++ rest)
      ≡ some (make msg, 1 + length (encode_string msg))
unfolding with_message
with_message_lem make msg rest h =
    rw (decode_string-encode_string max_message_len msg rest (omega arith) h) refl

pub decode_error-encode_error :
    (e : MarshalError) (rest : Bytes)
    → IsError e
    → decode_error (encode_error e ++ rest) ≡ some (e, length (encode_error e))
unfolding decode_error encode_error
decode_error-encode_error (unreachable msg) rest v =
    ground (arith, with_message_lem unreachable msg rest v)
decode_error-encode_error timeout rest v = refl
decode_error-encode_error (bad_response msg) rest v =
    ground (arith, with_message_lem bad_response msg rest v)
decode_error-encode_error (other msg) rest v = ground (arith, with_message_lem other msg rest v)
decode_error-encode_error (policy_refused msg) rest v =
    ground (arith, with_message_lem policy_refused msg rest v)

outcome_of-outcome_byte : (o : MarshalOutcome) → outcome_of (outcome_byte o) ≡ some o
unfolding outcome_of outcome_byte
outcome_of-outcome_byte execute = refl
outcome_of-outcome_byte refuse = refl
outcome_of-outcome_byte hard_stop = refl

-- An answer that fits is decoded as it was encoded, whatever follows it.
pub decode_response-encode_response :
    (r : MarshalResponse) (rest : Bytes)
    → IsResponse r
    → decode_response (encode_response r ++ rest) ≡ some (r, length (encode_response r))
unfolding encode_response decode_response
decode_response-encode_response (decision outcome json) rest v = ground (
  arith,
  outcome_of-outcome_byte outcome,
  decode_bytes-encode_bytes json rest v,
  length-encode_bytes json,
)
decode_response-encode_response (failure e) rest v =
    ground (arith, decode_error-encode_error e rest v)
