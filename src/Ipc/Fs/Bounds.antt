-- ===== src/Ipc/Fs/Bounds.antt =====
-- What the file system driver accepts, of ipc/src/fs.rs: any buffer.
use runix.Base.{
  Bytes, Option-cases, [], arith, drop, get_from, inl, inr, length, length-drop, some, subst, ℕ,
  ◌+◌, ◌∷◌, ◌≡◌, ◌≤◌,
}
use runix.Ipc.Strings.{
  IsString, decode_payload, decode_payload_bounds, decode_string, decode_string_bounds,
}
use runix.Ipc.Fs.{
  FsRequest, decode_request, decode_token, max_data_len, max_name_len, max_token_field_len,
  read_file, write_file,
}
use runix.CapabilityManager.{CapabilityToken}

-- A string that is read at an offset in the buffer ends in it.
string_at :
    (most off : ℕ) (buf : Bytes) (r : Bytes × ℕ)
    → decode_string most (drop off buf) ≡ some r
    → off ≤ length buf
    → off + r.1 ≤ length buf
string_at most off buf r e h =
    omega (arith, length-drop off buf h, (decode_string_bounds most (drop off buf) r.0 r.1 e).2)

decode_string-IsString :
    (most : ℕ) (buf : Bytes) (r : Bytes × ℕ) → decode_string most buf ≡ some r → IsString most r.0
decode_string-IsString most buf r e = (decode_string_bounds most buf r.0 r.1 e).0

-- The four strings of a token are UTF-8 within their limit.
abbrev pub IsTokenBounded : CapabilityToken → Type 0
IsTokenBounded t =
    IsString max_token_field_len t.subject
    × IsString max_token_field_len t.resource
    × IsString max_token_field_len t.key_id
    × IsString max_token_field_len t.signature

decode_token_bounds :
    (buf : Bytes) (t : CapabilityToken) (n : ℕ) → decode_token buf ≡ some (t, n) → n ≤ length buf
unfolding decode_token
decode_token_bounds buf t n h = grind (arith, string_at)

-- Whatever a token is decoded from, its strings are what `decode_string` read.
decode_token_parts :
    (buf : Bytes) (r : CapabilityToken × ℕ)
    → decode_token buf ≡ some r
    → (a b c d : Bytes × ℕ) × (v w x : Bytes) × (decode_string max_token_field_len buf ≡ some a)
      × (decode_string max_token_field_len v ≡ some b)
      × (decode_string max_token_field_len w ≡ some c)
      × (decode_string max_token_field_len x ≡ some d)
      × (a.0 ≡ r.0.subject)
      × (b.0 ≡ r.0.resource)
      × (c.0 ≡ r.0.key_id)
      × (d.0 ≡ r.0.signature)
unfolding decode_token
decode_token_parts buf r h = elim (Option-cases (decode_string max_token_field_len buf)) [
  | inl e ↦ absurd (grind arith)
  | inr (a, e) ↦ elim (Option-cases (get_from a.1 buf)) [
    | inl f ↦ absurd (grind arith)
    | inr (v, f) ↦ elim (Option-cases (decode_string max_token_field_len v)) [
      | inl g ↦ absurd (grind arith)
      | inr (b, g) ↦ elim (Option-cases (get_from (a.1 + b.1 + 16) buf)) [
        | inl k ↦ absurd (grind arith)
        | inr (w, k) ↦ elim (Option-cases (decode_string max_token_field_len w)) [
          | inl l ↦ absurd (grind arith)
          | inr (c, l) ↦ elim (Option-cases (get_from (a.1 + b.1 + 16 + c.1) buf)) [
            | inl m ↦ absurd (grind arith)
            | inr (x, m) ↦ elim (Option-cases (decode_string max_token_field_len x)) [
              | inl n ↦ absurd (grind arith)
              | inr (d, n) ↦ (
                a,
                b,
                c,
                d,
                v,
                w,
                x,
                e,
                g,
                l,
                n,
                grind arith,
                grind arith,
                grind arith,
                grind arith,
              )
            ]
          ]
        ]
      ]
    ]
  ]
]

decode_token-IsTokenBounded :
    (buf : Bytes) (r : CapabilityToken × ℕ) → decode_token buf ≡ some r → IsTokenBounded r.0
decode_token-IsTokenBounded buf r h =
    let (a, b, c, d, v, w, x, e, f, g, k, p, q, l, m) = decode_token_parts buf r h in
    let fits = IsString max_token_field_len in
    (
      subst fits p (decode_string-IsString max_token_field_len buf a e),
      subst fits q (decode_string-IsString max_token_field_len v b f),
      subst fits l (decode_string-IsString max_token_field_len w c g),
      subst fits m (decode_string-IsString max_token_field_len x d k),
    )

token_at :
    (off : ℕ) (buf : Bytes) (r : CapabilityToken × ℕ)
    → decode_token (drop off buf) ≡ some r
    → off ≤ length buf
    → off + r.1 ≤ length buf
token_at off buf r e h =
    omega (arith, length-drop off buf h, decode_token_bounds (drop off buf) r.0 r.1 e)

payload_end :
    (most off : ℕ) (buf : Bytes) (r : Bytes × ℕ)
    → decode_payload 2 most (drop off buf) ≡ some r
    → off ≤ length buf
    → off + r.1 ≤ length buf
payload_end most off buf r e h =
    omega (arith, length-drop off buf h, decode_payload_bounds 2 most (drop off buf) r.0 r.1 e)

payload_size :
    (most : ℕ) (buf : Bytes) (r : Bytes × ℕ)
    → decode_payload 2 most buf ≡ some r
    → length r.0 ≤ most
payload_size most buf r e = (decode_payload_bounds 2 most buf r.0 r.1 e).0

name_at :
    (most : ℕ) (buf : Bytes) (r : Bytes × ℕ) → decode_string most buf ≡ some r → r.1 ≤ length buf
name_at most buf r e = (decode_string_bounds most buf r.0 r.1 e).2

-- The strings of a request are UTF-8 within their limits, those of its token too, and its payload is
-- within its limit.
abbrev pub IsBounded : FsRequest → Type 0
IsBounded (read_file name token) = IsString max_name_len name × IsTokenBounded token
IsBounded (write_file name token bytes) =
    IsString max_name_len name × IsTokenBounded token × (length bytes ≤ max_data_len)

-- Whatever bytes arrive, a request that is decoded takes no more bytes than there are; its name and each
-- of the four strings of its token are UTF-8 within their limits, and its payload is within its limit.
pub decode_request_bounds :
    (buf : Bytes) (r : FsRequest) (n : ℕ)
    → decode_request buf ≡ some (r, n)
    → (n ≤ length buf) × IsBounded r
unfolding decode_request
decode_request_bounds [] r n h = cc
decode_request_bounds (tag ∷ body) r n h = grind (
  arith, name_at, token_at, payload_end, payload_size, decode_string-IsString,
  decode_token-IsTokenBounded,
)
