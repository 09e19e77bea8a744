-- ===== src/Ipc/Strings.antt =====
-- The strings and payloads with a length before them, of ipc/src/fs.rs and ipc/src/marshal.rs. A string
-- is the list of its bytes.
use mathlib.Core.List.{append_assoc}
use runix.Base.Maybe.{guard, ◌>>◌}
use runix.Base.{
  Bool, Bytes, List, Option, [], ap, arith, byte_range, drop, drop_eq, false, from_le,
  from_le-le_bytes, if◌then◌else◌, le_bytes, leb, length, length-append, length-drop,
  length-le_bytes, length-take, ltb, none, not, slice-append_le, some, sym, take, take-append,
  take-append_le, take_eq, true, ℕ, ◌&&◌, ◌++◌, ◌+◌, ◌<◌, ◌==◌, ◌∙◌, ◌∷◌, ◌≡◌, ◌≤◌,
}

-- The bounds of the bytes that must follow the first byte of a character of more than one byte.
utf8_tail : ℕ → Option (List (ℕ × ℕ))
utf8_tail b =
    if ltb b 194
    then none
    else if leb b 223
    then some ((128, 191) ∷ [])
    else if b == 224
    then some ((160, 191) ∷ (128, 191) ∷ [])
    else if b == 237
    then some ((128, 159) ∷ (128, 191) ∷ [])
    else if leb b 239
    then some ((128, 191) ∷ (128, 191) ∷ [])
    else if b == 240
    then some ((144, 191) ∷ (128, 191) ∷ (128, 191) ∷ [])
    else if leb b 243
    then some ((128, 191) ∷ (128, 191) ∷ (128, 191) ∷ [])
    else if b == 244
    then some ((128, 143) ∷ (128, 191) ∷ (128, 191) ∷ [])
    else none

-- `str::from_utf8(s).is_ok()`, inside a character if bounds are left.
utf8_from : List (ℕ × ℕ) → Bytes → Bool
unfolding utf8_tail
utf8_from [] [] = true
utf8_from (r ∷ rs) [] = false
utf8_from ((lo, hi) ∷ rs) (b ∷ bs) = leb lo b && leb b hi && utf8_from rs bs
utf8_from [] (b ∷ bs) =
    if ltb b 128
    then utf8_from [] bs
    else elim (utf8_tail b) [ none ↦ false | some rs ↦ utf8_from rs bs ]

unfoldable pub is_utf8 : Bytes → Bool
unfolding utf8_from
is_utf8 s = utf8_from [] s

unfoldable pub encode_string : Bytes → Bytes
encode_string s = le_bytes 2 (length s) ++ s

-- `decode_string`, for strings of at most `most` bytes.
unfoldable pub decode_string : ℕ → Bytes → Option (Bytes × ℕ)
decode_string most buf = do
  guard (not (ltb (length buf) 2))
  let len = from_le (take 2 buf)
  guard (not (ltb most len))
  guard (not (ltb (length buf) (2 + len)))
  guard (is_utf8 (take len (drop 2 buf)))
  some (take len (drop 2 buf), 2 + len)

-- A payload with its length in `width` bytes, at most `most` bytes.
unfoldable pub decode_payload : ℕ → ℕ → Bytes → Option (Bytes × ℕ)
decode_payload width most buf = do
  guard (not (ltb (length buf) width))
  let len = from_le (take width buf)
  guard (not (ltb most len))
  guard (not (ltb (length buf) (width + len)))
  some (take len (drop width buf), width + len)

-- A string that the format carries.
abbrev pub IsString : ℕ → Bytes → Type 0
IsString most s = (is_utf8 s ≡ true) × (length s ≤ most)

-- What a decoder sees of a payload that was encoded.
module _ (width most : ℕ) (s rest : Bytes) (fits : length s ≤ most)
    (small : most < byte_range width) where
  head_eq : from_le (take width (le_bytes width (length s) ++ (s ++ rest))) ≡ length s
  head_eq =
      ap from_le (
        take_eq width (le_bytes width (length s)) (s ++ rest)
          (sym (length-le_bytes width (length s))))
      ∙ from_le-le_bytes width (length s) (omega arith)

  body_eq : take (length s) (drop width (le_bytes width (length s) ++ (s ++ rest))) ≡ s
  body_eq =
      ap (take (length s)) (
        drop_eq width (le_bytes width (length s)) (s ++ rest)
          (sym (length-le_bytes width (length s))))
      ∙ take-append s rest

  size_eq : length (le_bytes width (length s) ++ (s ++ rest)) ≡ width + length s + length rest
  size_eq = omega (
    arith,
    length-append (le_bytes width (length s)) (s ++ rest),
    length-append s rest,
    length-le_bytes width (length s),
  )

  pub decode_payload_prefix :
      decode_payload width most (le_bytes width (length s) ++ (s ++ rest))
      ≡ some (s, width + length s)
  unfolding decode_payload
  decode_payload_prefix = rw (decode_payload, head_eq, body_eq, size_eq) (ground arith)

encode_string_split :
    (s rest : Bytes) → encode_string s ++ rest ≡ le_bytes 2 (length s) ++ (s ++ rest)
unfolding encode_string
encode_string_split s rest = append_assoc (le_bytes 2 (length s)) s rest

pub length-encode_string : (s : Bytes) → length (encode_string s) ≡ 2 + length s
unfolding encode_string
length-encode_string s = omega (arith, length-append (le_bytes 2 (length s)) s)

pub decode_string-encode_string :
    (most : ℕ) (s rest : Bytes)
    → most < 65536
    → IsString most s
    → decode_string most (encode_string s ++ rest) ≡ some (s, length (encode_string s))
unfolding decode_string
decode_string-encode_string most s rest small h =
    rw
      (
        encode_string_split s rest,
        decode_string,
        head_eq 2 most s rest h.1 small,
        body_eq 2 most s rest h.1 small,
        size_eq 2 most s rest h.1 small,
        length-encode_string s,
      )
      (ground (arith, h.0))

pub length-slice :
    (width len : ℕ) (buf : Bytes)
    → width + len ≤ length buf
    → length (take len (drop width buf)) ≡ len
length-slice width len buf h =
    length-take len (drop width buf) (omega (arith, length-drop width buf (omega arith)))

-- What is decoded fits its limit, and lies in the buffer.
pub decode_payload_bounds :
    (width most : ℕ) (buf s : Bytes) (n : ℕ)
    → decode_payload width most buf ≡ some (s, n)
    → (length s ≤ most) × (n ≡ width + length s) × (n ≤ length buf)
unfolding decode_payload
decode_payload_bounds width most buf s n h =
    ground (arith, length-slice width (from_le (take width buf)) buf)

pub decode_string_bounds :
    (most : ℕ) (buf s : Bytes) (n : ℕ)
    → decode_string most buf ≡ some (s, n)
    → IsString most s × (n ≡ 2 + length s) × (n ≤ length buf)
unfolding decode_string
decode_string_bounds most buf s n h = ground (arith, length-slice 2 (from_le (take 2 buf)) buf)

-- Bytes behind what was decoded do not change it.
pub decode_payload-append :
    (width most : ℕ) (buf more : Bytes) (r : Bytes × ℕ)
    → decode_payload width most buf ≡ some r
    → decode_payload width most (buf ++ more) ≡ some r
unfolding decode_payload
decode_payload-append width most buf more r h = ground (
  arith,
  length-append buf more,
  take-append_le width buf more,
  slice-append_le width (from_le (take width buf)) buf more,
)

pub decode_string-append :
    (most : ℕ) (buf more : Bytes) (r : Bytes × ℕ)
    → decode_string most buf ≡ some r
    → decode_string most (buf ++ more) ≡ some r
unfolding decode_string
decode_string-append most buf more r h = ground (
  arith,
  length-append buf more,
  take-append_le 2 buf more,
  slice-append_le 2 (from_le (take 2 buf)) buf more,
)
