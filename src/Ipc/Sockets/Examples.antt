-- ===== src/Ipc/Sockets/Examples.antt =====
-- Messages of ipc/src/sockets.rs, and the theorems at them.
use runix.Base.{[], arith, length, none, refl, some, ◌++◌, ◌∷◌, ◌≡◌}
use runix.Ipc.Sockets.{
  SocketRequest, connect, decode_response, encode_request, encode_response, received,
}
use runix.Ipc.Sockets.RoundTrip.{decode_response-encode_response}

abbrev connects : SocketRequest
connects = connect 2 (10, 0, 2, 2) 8080 49152

connect_bytes : encode_request connects ≡ 0 ∷ 2 ∷ 10 ∷ 0 ∷ 2 ∷ 2 ∷ 144 ∷ 31 ∷ 0 ∷ 192 ∷ []
unfolding encode_request
connect_bytes = refl

-- A handle without an error byte is no answer.
short_answer : decode_response (3 ∷ 1 ∷ []) ≡ none
unfolding decode_response
short_answer = refl

decode_response-encode_response_example :
    decode_response (encode_response (received 1 (5 ∷ 6 ∷ [])) ++ [])
    ≡ some (received 1 (5 ∷ 6 ∷ []), length (encode_response (received 1 (5 ∷ 6 ∷ []))))
decode_response-encode_response_example =
    decode_response-encode_response (received 1 (5 ∷ 6 ∷ [])) [] (omega arith)
