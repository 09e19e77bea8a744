-- ===== src/Ipc/Marshal/Examples.antt =====
-- Messages of ipc/src/marshal.rs, and the theorems at them.
use runix.Ipc.Marshal.Prefix.{decode_status-encode_response}
use runix.Base.{Bytes, [], arith, length, refl, sym, ℕ, ◌++◌, ◌∙◌, ◌∷◌, ◌≡◌, ◌≢◌}
use runix.Ipc.Strings.{encode_string, is_utf8}
use runix.Ipc.Marshal.{
  MarshalResponse, complete, decode_status, encode_response, failure, incomplete, malformed,
  policy_refused,
}
use runix.Ipc.Marshal.RoundTrip.{IsResponse}
use runix.Ipc.Marshal.Stream.{decode_status-append}

abbrev refused : MarshalResponse
refused = failure (policy_refused (b'n' ∷ b'o' ∷ []))

refused-IsResponse : IsResponse refused
unfolding is_utf8
refused-IsResponse = (refl, omega arith)

refused_bytes : encode_response refused ≡ 1 ∷ 4 ∷ 2 ∷ 0 ∷ b'n' ∷ b'o' ∷ []
unfolding encode_response encode_string
refused_bytes = refl

-- An error kind that no answer has, and a payload longer than any, are malformed at once.
bad_kind : decode_status (1 ∷ 5 ∷ []) ≡ malformed
unfolding decode_status
bad_kind = refl

bad_length : decode_status (0 ∷ 0 ∷ 1 ∷ 64 ∷ 0 ∷ 0 ∷ []) ≡ malformed
unfolding decode_status
bad_length = refl

incomplete_ne_malformed : incomplete ≢ malformed
incomplete_ne_malformed e = cc

decode_status-append_example :
    decode_status ((1 ∷ 5 ∷ []) ++ 7 ∷ 8 ∷ []) ≡ decode_status (1 ∷ 5 ∷ [])
decode_status-append_example =
    decode_status-append (1 ∷ 5 ∷ []) (7 ∷ 8 ∷ []) (λ e. incomplete_ne_malformed (sym e ∙ bad_kind))

decode_status-encode_response_example :
    ((pre post : Bytes) (c : ℕ)
      → encode_response refused ≡ pre ++ c ∷ post
      → decode_status pre ≡ incomplete)
    × ((rest : Bytes)
        → decode_status (encode_response refused ++ rest)
          ≡ complete refused (length (encode_response refused)))
decode_status-encode_response_example = decode_status-encode_response refused refused-IsResponse
