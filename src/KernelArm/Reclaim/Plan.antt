-- ===== src/KernelArm/Reclaim/Plan.antt =====
-- What a plan of kernel-arm/src/reclaim.rs frees.
use mathlib.Core.List.{Perm}
use runix.Base.{
  All, Bool, Bool-cases, List, Option-cases, Result-cases, [], ap, ap₂, arith, checked_mul, inl,
  inr, map, ok, refl, subst, sym, true, u64_max, ℕ, ◌%◌, ◌*◌, ◌++◌, ◌+◌, ◌<◌, ◌↔◌, ◌∙◌, ◌∷◌, ◌≡◌,
  ◌≤◌,
}
use runix.Base.Sort.{IsSorted, TotalOrder, sort, sort-IsSorted, sort-perm}
use runix.KernelArm.Reclaim.{
  Extent, block_extents, check_extent, check_extents, check_windows, extent_le, frame, frame_bytes,
  plan_frees,
}

-- Aligned, not empty, and inside the heap.
abbrev pub IsFreeable : ℕ → ℕ → Extent → Type 0
IsFreeable heap_start heap_end e =
    (e.addr % frame_bytes ≡ 0)
    × (0 < e.bytes)
    × (heap_start ≤ e.addr)
    × (e.addr + e.bytes ≤ heap_end)

-- Ascending, and each extent ends before all that follow.
abbrev pub Apart : List Extent → Type 0
Apart [] = Unit {0}
Apart (e ∷ es) = All (λ x. e.addr + e.bytes ≤ x.addr) es × Apart es

-- What the address space owns.
abbrev pub owned : List ℕ → List ℕ → List (ℕ × ℕ) → List Extent
owned tables pages blocks =
    map frame (tables ++ pages)
    ++ map (λ b. record { addr = b.0; bytes = b.1 * frame_bytes }) blocks

extent_eq : (a b : Extent) → a.addr ≡ b.addr → a.bytes ≡ b.bytes → a ≡ b
extent_eq a b p q = let mk : ℕ → ℕ → Extent = λ x y. record { addr = x; bytes = y } in ap₂ mk p q

pub extent_le-TotalOrder : TotalOrder extent_le
extent_le-TotalOrder = record {
  total = λ a b. elim (Bool-cases (extent_le a b)) [ inl h ↦ inl h | inr h ↦ inr (ground arith) ];
  trans = λ a b c h k. ground arith;
  antisym = λ a b h k. extent_eq a b (ground arith) (ground arith);
}

check_extent_iff :
    (s e : ℕ) (x : Extent) → e ≤ u64_max → (check_extent s e x ≡ ok tt) ↔ IsFreeable s e x
unfolding check_extent
check_extent_iff s e x w = ground arith

pub check_extents_iff :
    (s e : ℕ) (xs : List Extent)
    → e ≤ u64_max
    → (check_extents s e xs ≡ ok tt) ↔ All (IsFreeable s e) xs
unfolding check_extents
check_extents_iff s e [] w = (λ h. tt, λ h. refl)
check_extents_iff s e (x ∷ xs) w =
    let first = check_extent_iff s e x w in
    let rest = check_extents_iff s e xs w in
    elim (Result-cases (check_extent s e x)) [
      | inl (u, c) ↦ rw c (λ h. (first.0 c, rest.0 h), λ a. rest.1 a.1)
      | inr (f, c) ↦ rw c (λ h. absurd (ground arith), λ a. absurd (ground (arith, first.1 a.0)))
    ]

block_extents_iff :
    (blocks : List (ℕ × ℕ)) (runs : List Extent)
    → block_extents blocks ≡ ok runs
    → runs ≡ map (λ b. record { addr = b.0; bytes = b.1 * frame_bytes }) blocks
unfolding block_extents
block_extents_iff [] runs h = ground arith
block_extents_iff (b ∷ blocks) runs h = elim (Option-cases (checked_mul b.1 frame_bytes)) [
  | inl n ↦ absurd (ground arith)
  | inr (v, n) ↦ elim (Result-cases (block_extents blocks)) [
    | inl (rest, c) ↦
        let first : v ≡ b.1 * frame_bytes = ground arith in
        let tail = block_extents_iff blocks rest c in
        let made : record { addr = b.0; bytes = v } ∷ rest ≡ runs = ground arith in
        sym made
        ∙ ap₂ (λ (z : ℕ) (t : List Extent). record { addr = b.0; bytes = z } ∷ t) first tail
    | inr (f, c) ↦ absurd (ground arith)
  ]
]

All-mono :
    {P Q : Extent → Type 0} (xs : List Extent) → ((x : Extent) → P x → Q x) → All P xs → All Q xs
All-mono [] f a = tt
All-mono (x ∷ xs) f a = (f x a.0, All-mono xs f a.1)

check_windows-Apart :
    (xs : List Extent) → IsSorted extent_le xs → check_windows xs ≡ ok tt → Apart xs
unfolding check_windows
check_windows-Apart [] s h = tt
check_windows-Apart (a ∷ []) s h = (tt, tt)
check_windows-Apart (a ∷ b ∷ es) s h =
    let next : a.addr + a.bytes ≤ b.addr = ground arith in
    let rest = check_windows-Apart (b ∷ es) s.1 (ground arith) in
    ((next, All-mono es (λ x (k : extent_le b x ≡ true). ground arith) s.1.0), rest)

-- The facts that the sort and the checks give.
checked_plan :
    (s e : ℕ) (xs : List Extent)
    → e ≤ u64_max
    → check_extents s e xs ≡ ok tt
    → check_windows (sort extent_le xs) ≡ ok tt
    → Perm (sort extent_le xs) xs × All (IsFreeable s e) xs × Apart (sort extent_le xs)
checked_plan s e xs w c d = (
  sort-perm extent_le xs,
  (check_extents_iff s e xs w).0 c,
  check_windows-Apart (sort extent_le xs) (sort-IsSorted extent_le extent_le-TotalOrder xs) d,
)

-- A plan that is made, for a heap that ends within 64 bits, frees exactly what the address space owns,
-- in ascending order, each extent aligned, not empty, inside the heap, and ended before the next.
pub plan_frees-Apart :
    (reserved : Bool) (tables pages : List ℕ) (blocks : List (ℕ × ℕ)) (s e : ℕ) (plan : List Extent)
    → e ≤ u64_max
    → plan_frees reserved tables pages blocks s e ≡ ok plan
    → Perm plan (owned tables pages blocks)
      × All (IsFreeable s e) (owned tables pages blocks)
      × Apart plan
unfolding plan_frees
plan_frees-Apart reserved tables pages blocks s e plan w h =
    elim (Result-cases (block_extents blocks)) [
      | inr (f, c) ↦ absurd (ground arith)
      | inl (runs, c) ↦
          let all = map frame (tables ++ pages) ++ runs in
          elim (Result-cases (check_extents s e all)) [
            | inr (f, d) ↦ absurd (ground arith)
            | inl (u, d) ↦ elim (Result-cases (check_windows (sort extent_le all))) [
              | inr (f, k) ↦ absurd (ground arith)
              | inl (v, k) ↦
                  let made : sort extent_le all ≡ plan = ground arith in
                  subst (λ z. Perm plan z × All (IsFreeable s e) z × Apart plan)
                    (ap (λ r. map frame (tables ++ pages) ++ r) (block_extents_iff blocks runs c))
                    (subst (λ z. Perm z all × All (IsFreeable s e) all × Apart z) made
                      (checked_plan s e all w d k))
            ]
          ]
    ]
