-- ===== src/Ipc/Fs.antt =====
-- ipc/src/fs.rs: requests to the file system driver and its answers.
pub mod RoundTrip
pub mod Bounds
mod Examples
use runix.Base.Maybe.{guard, ◌>>=◌, ◌>>◌}
use runix.Base.{
  Bytes, Option, [], drop, from_le, get_from, if◌then◌else◌, le_bytes, length, ltb, none, not, some,
  take, ℕ, ◌++◌, ◌+◌, ◌==◌, ◌∷◌,
}
use runix.Ipc.Strings.{decode_payload, decode_string, encode_string}
use runix.CapabilityManager.{CapabilityToken}

abbrev pub max_name_len : ℕ
max_name_len = 64

abbrev pub max_token_field_len : ℕ
max_token_field_len = 256

abbrev pub max_data_len : ℕ
max_data_len = 4096

pub encode_token : CapabilityToken → Bytes
encode_token t =
    encode_string t.subject
    ++ (encode_string t.resource
        ++ (le_bytes 8 t.issued_at
            ++ (le_bytes 8 t.expires_at ++ (encode_string t.key_id ++ encode_string t.signature))))

pub decode_token : Bytes → Option (CapabilityToken × ℕ)
decode_token buf = do
  (subject, n1) ← decode_string max_token_field_len buf
  rest1 ← get_from n1 buf
  (resource, n2) ← decode_string max_token_field_len rest1
  guard (not (ltb (length buf) (n1 + n2 + 16)))
  let issued_at = from_le (take 8 (drop (n1 + n2) buf))
  let expires_at = from_le (take 8 (drop (n1 + n2 + 8) buf))
  rest2 ← get_from (n1 + n2 + 16) buf
  (key_id, n3) ← decode_string max_token_field_len rest2
  rest3 ← get_from (n1 + n2 + 16 + n3) buf
  (signature, n4) ← decode_string max_token_field_len rest3
  some (
    record {
      subject = subject;
      resource = resource;
      issued_at = issued_at;
      expires_at = expires_at;
      key_id = key_id;
      signature = signature;
    },
    n1 + n2 + 16 + n3 + n4,
  )

-- `Read` and `Write`.
pub data FsRequest : Type 0 where
  read_file : Bytes → CapabilityToken → FsRequest
  write_file : Bytes → CapabilityToken → Bytes → FsRequest

-- `FsRequest::encode`
pub encode_request : FsRequest → Bytes
unfolding encode_token
encode_request (read_file name token) = 0 ∷ (encode_string name ++ encode_token token)
encode_request (write_file name token bytes) =
    1 ∷ (encode_string name ++ (encode_token token ++ (le_bytes 2 (length bytes) ++ bytes)))

-- `FsRequest::decode`
pub decode_request : Bytes → Option (FsRequest × ℕ)
unfolding decode_token
decode_request [] = none
decode_request (tag ∷ body) = do
  (name, n) ← decode_string max_token_field_len body
  guard (not (ltb max_name_len (length name)))
  rest ← get_from n body
  (token, m) ← decode_token rest
  if tag == 0
      then some (read_file name token, 1 + n + m)
      else (if tag == 1
          then (get_from (n + m) body >>= λ tail.
              decode_payload 2 max_data_len tail >>= λ (bytes, k).
              some (write_file name token bytes, 1 + n + m + k))
          else none)

pub data FsError : Type 0 where
  unauthorized not_found bad_request device_failed : FsError

-- `FsError::to_byte`
pub error_byte : FsError → ℕ
error_byte unauthorized = 0
error_byte not_found = 1
error_byte bad_request = 2
error_byte device_failed = 3

-- `FsError::from_byte`
pub error_of : ℕ → Option FsError
error_of b =
    if b == 0
    then some unauthorized
    else if b == 1
    then some not_found
    else if b == 2
    then some bad_request
    else if b == 3
    then some device_failed
    else none

-- `Data`, `Ok` and `Error`.
pub data FsResponse : Type 0 where
  data_read : Bytes → FsResponse
  done : FsResponse
  failed : FsError → FsResponse

-- `FsResponse::encode`
pub encode_response : FsResponse → Bytes
unfolding error_byte
encode_response (data_read bytes) = 0 ∷ (le_bytes 2 (length bytes) ++ bytes)
encode_response done = 1 ∷ []
encode_response (failed e) = 2 ∷ error_byte e ∷ []

-- `FsResponse::decode`
pub decode_response : Bytes → Option (FsResponse × ℕ)
unfolding error_of
decode_response [] = none
decode_response (tag ∷ body) =
    if tag == 0
    then (decode_payload 2 max_data_len body >>= λ (bytes, k). some (data_read bytes, 1 + k))
    else if tag == 1
    then some (done, 1)
    else if tag == 2
    then elim body [ [] ↦ none | b ∷ _ ↦ error_of b >>= λ e. some (failed e, 2) ]
    else none
