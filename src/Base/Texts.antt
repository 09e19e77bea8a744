-- ===== src/Base/Texts.antt =====
-- Texts as bytes: the decimal text of a number, as Rust's `Display` writes it, and the boundaries of
-- characters.
use runix.Base.Tests.{if◌then◌else◌, leb, ltb, ◌==◌}
use mathlib.Core.Bool.{Bool, ◌||◌}
use runix.Base.ByteLists.{Bytes}
use Prim.Native.Nat.{ℕ, zero, suc, ◌+◌, ◌/◌, ◌%◌}
use mathlib.Core.List.{[], ◌∷◌, ◌++◌}

-- The digits of a number in base ten, at most as many as the fuel; a `u64` has at most 20.
digits : ℕ → ℕ → Bytes
digits zero n = []
digits (suc fuel) n =
    let rest = digits fuel (n / 10) in
    if ltb n 10 then (48 + n) ∷ [] else rest ++ (48 + n % 10) ∷ []

unfoldable pub decimal : ℕ → Bytes
unfolding digits
decimal n = digits 20 n

-- `s.is_char_boundary(i)`: not before a continuation byte.
unfoldable pub is_char_boundary : Bytes → ℕ → Bool
is_char_boundary [] i = i == 0
is_char_boundary (b ∷ bs) zero = ltb b 128 || leb 192 b
is_char_boundary (b ∷ bs) (suc i) = is_char_boundary bs i
