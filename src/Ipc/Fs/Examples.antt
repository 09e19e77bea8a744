-- ===== src/Ipc/Fs/Examples.antt =====
-- Messages of ipc/src/fs.rs, and the theorems at them.
use runix.Base.{[], arith, false, length, refl, some, true, ◌++◌, ◌∷◌, ◌≡◌, ◌≤◌}
use runix.Ipc.Strings.{encode_string, is_utf8}
use runix.Ipc.Fs.{FsRequest, decode_request, encode_request, write_file}
use runix.Ipc.Fs.RoundTrip.{IsRequest, decode_request-encode_request}
use runix.Ipc.Fs.Bounds.{IsBounded, decode_request_bounds}
use runix.CapabilityManager.{CapabilityToken}

abbrev token : CapabilityToken
token = record {
  subject = b'a' ∷ [];
  resource = b'd' ∷ [];
  issued_at = 1000;
  expires_at = 2000;
  key_id = [];
  signature = b'0' ∷ b'f' ∷ [];
}

abbrev writes : FsRequest
writes = write_file (b'x' ∷ []) token (7 ∷ 8 ∷ [])

writes-IsRequest : IsRequest writes
unfolding is_utf8
writes-IsRequest = (
  (refl, omega arith),
  record {
    subject_fits = (refl, omega arith);
    resource_fits = (refl, omega arith);
    issued_fits = omega arith;
    expires_fits = omega arith;
    key_fits = (refl, omega arith);
    signature_fits = (refl, omega arith);
  },
  omega arith,
)

-- A character of two bytes is one; a byte that continues none is not.
utf8_runs : (is_utf8 (195 ∷ 169 ∷ []) ≡ true) × (is_utf8 (169 ∷ []) ≡ false)
unfolding is_utf8
utf8_runs = (refl, refl)

write_bytes : length (encode_request writes) ≡ 36
unfolding encode_request encode_string
write_bytes = refl

decode_request-encode_request_example :
    decode_request (encode_request writes ++ 0 ∷ []) ≡ some (writes, length (encode_request writes))
decode_request-encode_request_example =
    decode_request-encode_request writes (0 ∷ []) writes-IsRequest

decode_request_bounds_example :
    (length (encode_request writes) ≤ length (encode_request writes ++ 0 ∷ [])) × IsBounded writes
decode_request_bounds_example =
    decode_request_bounds (encode_request writes ++ 0 ∷ []) writes (length (encode_request writes))
      decode_request-encode_request_example
