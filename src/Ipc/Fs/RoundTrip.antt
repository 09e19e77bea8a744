-- ===== src/Ipc/Fs/RoundTrip.antt =====
-- What the file system driver decodes of a message of ipc/src/fs.rs that was encoded.
use mathlib.Core.List.{append_assoc}
use runix.Base.{
  At, At-cast, At-first, At-next, Bytes, ap, arith, byte_range, false, get_from-At, le_bytes,
  length, length-append, ltb, read_le, refl, some, ℕ, ◌++◌, ◌+◌, ◌<◌, ◌∙◌, ◌∷◌, ◌≡◌, ◌≤◌,
}
use runix.Ipc.Strings.{IsString, decode_payload_prefix, decode_string-encode_string, encode_string}
use runix.Ipc.Fs.{
  FsRequest, FsResponse, bad_request, data_read, decode_request, decode_response, decode_token,
  device_failed, done, encode_request, encode_response, encode_token, failed, max_data_len,
  max_name_len, max_token_field_len, not_found, read_file, unauthorized, write_file,
}
use runix.CapabilityManager.{CapabilityToken}

-- A token whose strings and words the format carries.
pub record IsToken (t : CapabilityToken) : Type 0 where
  pub subject_fits : IsString max_token_field_len t.subject
  pub resource_fits : IsString max_token_field_len t.resource
  pub issued_fits : t.issued_at < byte_range 8
  pub expires_fits : t.expires_at < byte_range 8
  pub key_fits : IsString max_token_field_len t.key_id
  pub signature_fits : IsString max_token_field_len t.signature

module _ (t : CapabilityToken) (rest : Bytes) (v : IsToken t) where
  -- The buffer, from each of the fields on.
  abbrev from_signature : Bytes
  from_signature = encode_string t.signature ++ rest

  abbrev from_key : Bytes
  from_key = encode_string t.key_id ++ from_signature

  abbrev from_expires : Bytes
  from_expires = le_bytes 8 t.expires_at ++ from_key

  abbrev from_issued : Bytes
  from_issued = le_bytes 8 t.issued_at ++ from_expires

  abbrev from_resource : Bytes
  from_resource = encode_string t.resource ++ from_issued

  abbrev buffer : Bytes
  buffer = encode_string t.subject ++ from_resource

  encode_token_split : encode_token t ++ rest ≡ buffer
  unfolding encode_token
  encode_token_split = simp append_assoc

  abbrev n1 : ℕ
  n1 = length (encode_string t.subject)

  abbrev n2 : ℕ
  n2 = length (encode_string t.resource)

  abbrev n3 : ℕ
  n3 = length (encode_string t.key_id)

  At-resource : At n1 buffer from_resource
  At-resource = At-first n1 (encode_string t.subject) from_resource refl

  At-issued : At (n1 + n2) buffer from_issued
  At-issued = At-next n1 n2 buffer (encode_string t.resource) from_issued refl At-resource

  At-expires : At (n1 + n2 + 8) buffer from_expires
  At-expires = At-next (n1 + n2) 8 buffer (le_bytes 8 t.issued_at) from_expires refl At-issued

  At-key : At (n1 + n2 + 16) buffer from_key
  At-key =
      At-cast (n1 + n2 + 8 + 8) (n1 + n2 + 16) buffer from_key (omega arith)
        (At-next (n1 + n2 + 8) 8 buffer (le_bytes 8 t.expires_at) from_key refl At-expires)

  At-signature : At (n1 + n2 + 16 + n3) buffer from_signature
  At-signature =
      At-next (n1 + n2 + 16) n3 buffer (encode_string t.key_id) from_signature refl At-key

  room : ltb (length buffer) (n1 + n2 + 16) ≡ false
  room = ground (arith, At-key.0)

  length-encode_token :
      length (encode_token t) ≡ n1 + n2 + 16 + n3 + length (encode_string t.signature)
  unfolding encode_token
  length-encode_token = omega (arith, length-append {0})

  decode_token-encode_token :
      decode_token (encode_token t ++ rest) ≡ some (t, length (encode_token t))
  unfolding decode_token
  decode_token-encode_token =
      rw
        (
          encode_token_split,
          decode_token,
          decode_string-encode_string 256 t.subject from_resource (omega arith) v.subject_fits,
          get_from-At n1 buffer from_resource At-resource,
          decode_string-encode_string 256 t.resource from_issued (omega arith) v.resource_fits,
          room,
          At-issued.1,
          At-expires.1,
          get_from-At (n1 + n2 + 16) buffer from_key At-key,
          decode_string-encode_string 256 t.key_id from_signature (omega arith) v.key_fits,
          get_from-At (n1 + n2 + 16 + n3) buffer from_signature At-signature,
          decode_string-encode_string 256 t.signature rest (omega arith) v.signature_fits,
          read_le 8 t.issued_at from_expires v.issued_fits,
          read_le 8 t.expires_at from_key v.expires_fits,
          length-encode_token,
        )
        refl

-- A request whose name, token and payload the format carries.
abbrev pub IsRequest : FsRequest → Type 0
IsRequest (read_file name token) = IsString max_name_len name × IsToken token
IsRequest (write_file name token bytes) =
    IsString max_name_len name × IsToken token × (length bytes ≤ max_data_len)

module _ (name : Bytes) (token : CapabilityToken) (tail : Bytes) where
  abbrev body : Bytes
  body = encode_string name ++ (encode_token token ++ tail)

  At-token : At (length (encode_string name)) body (encode_token token ++ tail)
  At-token =
      At-first (length (encode_string name)) (encode_string name) (encode_token token ++ tail) refl

  At-tail : At (length (encode_string name) + length (encode_token token)) body tail
  At-tail =
      At-next (length (encode_string name)) (length (encode_token token)) body (encode_token token)
        tail refl At-token

name_fits : (name : Bytes) → IsString max_name_len name → IsString max_token_field_len name
name_fits name fits = (fits.0, omega (arith, fits.1))

short : (name : Bytes) → IsString max_name_len name → ltb max_name_len (length name) ≡ false
short name fits = ground (arith, fits.1)

decode_read :
    (name : Bytes) (token : CapabilityToken) (tail : Bytes)
    → IsString max_name_len name
    → IsToken token
    → decode_request (0 ∷ body name token tail)
      ≡ some (read_file name token, 1 + length (encode_string name) + length (encode_token token))
unfolding decode_request
decode_read name token tail fits v =
    rw
      (
        decode_string-encode_string 256 name (encode_token token ++ tail) (omega arith)
            (name_fits name fits),
        short name fits,
        get_from-At (length (encode_string name)) (body name token tail)
            (encode_token token ++ tail) (At-token name token tail),
        decode_token-encode_token token tail v,
      )
      refl

decode_write :
    (name : Bytes) (token : CapabilityToken) (bytes rest : Bytes)
    → IsString max_name_len name
    → IsToken token
    → length bytes ≤ max_data_len
    → decode_request (1 ∷ body name token (le_bytes 2 (length bytes) ++ (bytes ++ rest)))
      ≡ some (
        write_file name token bytes,
        1 + length (encode_string name) + length (encode_token token) + (2 + length bytes),
      )
unfolding decode_request
decode_write name token bytes rest fits v small =
    let tail = le_bytes 2 (length bytes) ++ (bytes ++ rest) in
    rw
      (
        decode_string-encode_string 256 name (encode_token token ++ tail) (omega arith)
            (name_fits name fits),
        short name fits,
        get_from-At (length (encode_string name)) (body name token tail)
            (encode_token token ++ tail) (At-token name token tail),
        decode_token-encode_token token tail v,
        get_from-At (length (encode_string name) + length (encode_token token))
            (body name token tail) tail (At-tail name token tail),
        decode_payload_prefix 2 max_data_len bytes rest small (omega arith),
      )
      refl

write_split :
    (name : Bytes) (token : CapabilityToken) (bytes rest : Bytes)
    → (encode_string name ++ (encode_token token ++ (le_bytes 2 (length bytes) ++ bytes))) ++ rest
      ≡ body name token (le_bytes 2 (length bytes) ++ (bytes ++ rest))
write_split name token bytes rest = simp append_assoc

-- A request whose strings are UTF-8 and fit their limits, whose words fit 64 bits and whose payload
-- fits is decoded as it was encoded, whatever follows it, and all its bytes are taken.
pub decode_request-encode_request :
    (r : FsRequest) (rest : Bytes)
    → IsRequest r
    → decode_request (encode_request r ++ rest) ≡ some (r, length (encode_request r))
unfolding encode_request
decode_request-encode_request (read_file name token) rest v =
    ap (λ b. decode_request (0 ∷ b)) (append_assoc (encode_string name) (encode_token token) rest)
    ∙ decode_read name token rest v.0 v.1
    ∙ ap (λ n. some (read_file name token, n)) (omega (arith, length-append {0}))
decode_request-encode_request (write_file name token bytes) rest v =
    ap (λ b. decode_request (1 ∷ b)) (write_split name token bytes rest)
    ∙ decode_write name token bytes rest v.0 v.1 v.2
    ∙ ap (λ n. some (write_file name token bytes, n)) (omega (arith, length-append {0}))

abbrev pub IsResponse : FsResponse → Type 0
IsResponse (data_read bytes) = length bytes ≤ max_data_len
IsResponse done = Unit {0}
IsResponse (failed e) = Unit {0}

-- An answer whose payload fits is decoded as it was encoded, whatever follows it.
pub decode_response-encode_response :
    (r : FsResponse) (rest : Bytes)
    → IsResponse r
    → decode_response (encode_response r ++ rest) ≡ some (r, length (encode_response r))
unfolding encode_response decode_response
decode_response-encode_response (data_read bytes) rest v =
    rw (decode_payload_prefix 2 max_data_len bytes rest v (omega arith))
      (ap (λ n. some (data_read bytes, n)) (omega arith))
decode_response-encode_response done rest v = refl
decode_response-encode_response (failed unauthorized) rest v = refl
decode_response-encode_response (failed not_found) rest v = refl
decode_response-encode_response (failed bad_request) rest v = refl
decode_response-encode_response (failed device_failed) rest v = refl
