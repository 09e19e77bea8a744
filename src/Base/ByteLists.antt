-- ===== src/Base/ByteLists.antt =====
-- Strings of bytes: slices, little-endian numbers, and reading at an offset.
use Prim.Native.Nat.{ℕ, zero, suc, ◌+◌, ◌*◌, ◌/◌, ◌%◌, ◌≤◌, ◌<◌}
use mathlib.Core.Path.{◌≡◌, refl, ap, ap₂, subst, sym, ◌∙◌}
use mathlib.Core.List.{List, [], ◌∷◌, ◌++◌}
use mathlib.Core.Option.{Option, none, some}
use mathlib.Core.Logic.{◌↔◌, ◌⊎◌, inl, inr}
use mathlib.Core.Bool.{Bool, true, false, ◌&&◌}
use native.Mathlib.Omega.{arith}
use runix.Base.Tests.{==_iff, if◌then◌else◌, leb, le→leb, ◌==◌}
use runix.Base.Lists.{length, length-append}

abbrev pub Bytes : Type 0
Bytes = List ℕ

module _ {ℓ} {A : Type ℓ} where
  -- `&xs[..n]`
  abbrev pub take : ℕ → List A → List A
  take zero xs = []
  take (suc n) [] = []
  take (suc n) (x ∷ xs) = x ∷ take n xs

  -- `&xs[n..]`
  abbrev pub drop : ℕ → List A → List A
  drop zero xs = xs
  drop (suc n) [] = []
  drop (suc n) (x ∷ xs) = drop n xs

  -- `xs.get(n..)`
  abbrev pub get_from : ℕ → List A → Option (List A)
  get_from n xs = if leb n (length xs) then some (drop n xs) else none

  pub take-append : (xs ys : List A) → take (length xs) (xs ++ ys) ≡ xs
  take-append [] ys = refl
  take-append (x ∷ xs) ys = ap (λ t. x ∷ t) (take-append xs ys)

  pub drop-append : (xs ys : List A) → drop (length xs) (xs ++ ys) ≡ ys
  drop-append [] ys = refl
  drop-append (x ∷ xs) ys = drop-append xs ys

  pub take_eq : (n : ℕ) (xs ys : List A) → n ≡ length xs → take n (xs ++ ys) ≡ xs
  take_eq n xs ys e = rw e (take-append xs ys)

  pub drop_eq : (n : ℕ) (xs ys : List A) → n ≡ length xs → drop n (xs ++ ys) ≡ ys
  drop_eq n xs ys e = rw e (drop-append xs ys)

  drop-nil : (n : ℕ) → drop n [] ≡ []
  drop-nil zero = refl
  drop-nil (suc n) = refl

  pub drop-drop : (m n : ℕ) (xs : List A) → drop n (drop m xs) ≡ drop (m + n) xs
  drop-drop zero n xs = let e : zero + n ≡ n = omega arith in rw e refl
  drop-drop (suc m) n [] = drop-nil n ∙ sym (drop-nil (suc m + n))
  drop-drop (suc m) n (x ∷ xs) =
      let e : suc m + n ≡ suc (m + n) = omega arith in rw e (drop-drop m n xs)

  pub length-take : (n : ℕ) (xs : List A) → n ≤ length xs → length (take n xs) ≡ n
  length-take zero xs h = refl
  length-take (suc n) [] h = absurd (omega arith)
  length-take (suc n) (x ∷ xs) h = ap suc (length-take n xs (omega arith))

  pub length-drop : (n : ℕ) (xs : List A) → n ≤ length xs → length (drop n xs) + n ≡ length xs
  length-drop zero xs h = omega arith
  length-drop (suc n) [] h = absurd (omega arith)
  length-drop (suc n) (x ∷ xs) h = omega (arith, length-drop n xs (omega arith))

  -- Bytes behind a slice do not change it.
  pub take-append_le : (n : ℕ) (xs ys : List A) → n ≤ length xs → take n (xs ++ ys) ≡ take n xs
  take-append_le zero xs ys h = refl
  take-append_le (suc n) [] ys h = absurd (omega arith)
  take-append_le (suc n) (x ∷ xs) ys h = ap (λ t. x ∷ t) (take-append_le n xs ys (omega arith))

  pub drop-append_le :
      (n : ℕ) (xs ys : List A) → n ≤ length xs → drop n (xs ++ ys) ≡ drop n xs ++ ys
  drop-append_le zero xs ys h = refl
  drop-append_le (suc n) [] ys h = absurd (omega arith)
  drop-append_le (suc n) (x ∷ xs) ys h = drop-append_le n xs ys (omega arith)

  pub slice-append_le :
      (m n : ℕ) (xs ys : List A)
      → m + n ≤ length xs
      → take n (drop m (xs ++ ys)) ≡ take n (drop m xs)
  slice-append_le m n xs ys h =
      ap (take n) (drop-append_le m xs ys (omega arith))
      ∙ take-append_le n (drop m xs) ys (omega (arith, length-drop m xs (omega arith)))

  -- From the offset on, the buffer holds the bytes.
  abbrev pub At : ℕ → List A → List A → Type ℓ
  At off buf bytes = (off + length bytes ≡ length buf) × (drop off buf ≡ bytes)

  pub At-start : (buf : List A) → At 0 buf buf
  At-start buf = (omega arith, refl)

  pub At-first : (n : ℕ) (xs ys : List A) → n ≡ length xs → At n (xs ++ ys) ys
  At-first n xs ys e = (omega (arith, e, length-append xs ys), drop_eq n xs ys e)

  pub At-cast : (off off' : ℕ) (buf ys : List A) → off ≡ off' → At off buf ys → At off' buf ys
  At-cast off off' buf ys e h = subst (λ o. At o buf ys) e h

  pub At-next :
      (off n : ℕ) (buf xs ys : List A) → n ≡ length xs → At off buf (xs ++ ys) → At (off + n) buf ys
  At-next off n buf xs ys e h = (
    omega (arith, e, h.0, length-append xs ys),
    sym (drop-drop off n buf) ∙ ap (drop n) h.1 ∙ rw e (drop-append xs ys),
  )

  pub get_from-At : (off : ℕ) (buf ys : List A) → At off buf ys → get_from off buf ≡ some ys
  get_from-At off buf ys h = rw (le→leb off (length buf) (omega arith), h.1) refl

-- The `n` lowest bytes, the lowest first: `to_le_bytes` of a number of `n` bytes.
abbrev pub le_bytes : ℕ → ℕ → Bytes
le_bytes zero v = []
le_bytes (suc n) v = (v % 256) ∷ le_bytes n (v / 256)

-- `from_le_bytes`
abbrev pub from_le : Bytes → ℕ
from_le [] = 0
from_le (b ∷ bs) = b + 256 * from_le bs

-- The number of values of `n` bytes.
abbrev pub byte_range : ℕ → ℕ
byte_range zero = 1
byte_range (suc n) = 256 * byte_range n

pub length-le_bytes : (n v : ℕ) → length (le_bytes n v) ≡ n
length-le_bytes zero v = refl
length-le_bytes (suc n) v = ap suc (length-le_bytes n (v / 256))

pub from_le-le_bytes : (n v : ℕ) → v < byte_range n → from_le (le_bytes n v) ≡ v
from_le-le_bytes zero v h = omega arith
from_le-le_bytes (suc n) v h = omega (arith, from_le-le_bytes n (v / 256) (omega arith))

-- A number that was written is read back.
pub read_le :
    (n v : ℕ) (rest : Bytes) → v < byte_range n → from_le (take n (le_bytes n v ++ rest)) ≡ v
read_le n v rest h =
    ap from_le (take_eq n (le_bytes n v) rest (sym (length-le_bytes n v))) ∙ from_le-le_bytes n v h

-- Comparison of two byte strings.
abbrev pub bytes_eq : Bytes → Bytes → Bool
bytes_eq [] [] = true
bytes_eq (x ∷ xs) (y ∷ ys) = (x == y) && bytes_eq xs ys
bytes_eq (x ∷ xs) [] = false
bytes_eq [] (y ∷ ys) = false

pub bytes_eq_iff : (xs ys : Bytes) → (bytes_eq xs ys ≡ true) ↔ (xs ≡ ys)
bytes_eq_iff [] [] = (λ h. refl, λ h. refl)
bytes_eq_iff [] (y ∷ ys) = ground arith
bytes_eq_iff (x ∷ xs) [] = ground arith
bytes_eq_iff (x ∷ xs) (y ∷ ys) =
    let first = ==_iff x y in
    let rest = bytes_eq_iff xs ys in
    (
      λ h. ap₂ (λ a b. a ∷ b) (first.0 (ground arith)) (rest.0 (ground arith)),
      λ h. let p : x ≡ y = cc in let q : xs ≡ ys = cc in ground (arith, first.1 p, rest.1 q),
    )

-- `buf[i]`, read where the length has been checked.
abbrev pub byte_at : Bytes → ℕ → ℕ
byte_at [] i = 0
byte_at (b ∷ bs) zero = b
byte_at (b ∷ bs) (suc i) = byte_at bs i

pub Bytes-cases : (q : Bytes) → (q ≡ []) ⊎ ((b : ℕ) × (bs : Bytes) × (q ≡ b ∷ bs))
Bytes-cases [] = inl refl
Bytes-cases (b ∷ bs) = inr (b, bs, refl)
