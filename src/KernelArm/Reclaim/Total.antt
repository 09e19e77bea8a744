-- ===== src/KernelArm/Reclaim/Total.antt =====
-- When kernel-arm/src/reclaim.rs makes a plan.
use runix.Base.{
  All, Bool-cases, List, [], arith, checked_mul, inl, inr, map, ok, refl, some, true, u64_max, ℕ,
  ◌*◌, ◌+◌, ◌<◌, ◌∷◌, ◌≡◌, ◌≤◌, ◌⊎◌,
}
use runix.Base.Sort.{All-insert, IsSorted, insert, sort, sort-IsSorted}
use runix.KernelArm.Reclaim.{
  Extent, block_extents, check_windows, extent_le, frame_bytes, plan_frees,
}
use runix.KernelArm.Reclaim.Plan.{IsFreeable, check_extents_iff, extent_le-TotalOrder, owned}

-- One of the extents ends before the other.
abbrev pub NoOverlap : Extent → Extent → Type 0
NoOverlap x y = (x.addr + x.bytes ≤ y.addr) ⊎ (y.addr + y.bytes ≤ x.addr)

-- In any order: no extent is empty, and no two overlap.
abbrev pub Disjoint : List Extent → Type 0
Disjoint [] = Unit {0}
Disjoint (x ∷ xs) = (0 < x.bytes) × All (NoOverlap x) xs × Disjoint xs

NoOverlap-sym : (x y : Extent) → NoOverlap x y → NoOverlap y x
NoOverlap-sym x y (inl h) = inr h
NoOverlap-sym x y (inr h) = inl h

Disjoint-insert :
    (x : Extent) (ys : List Extent)
    → 0 < x.bytes
    → All (NoOverlap x) ys
    → Disjoint ys
    → Disjoint (insert extent_le x ys)
unfolding insert
Disjoint-insert x [] n a d = (n, tt, tt)
Disjoint-insert x (y ∷ ys) n a d = elim (Bool-cases (extent_le x y)) [
  | inl t ↦ rw t (n, a, d)
  | inr f ↦ rw f (
    d.0,
    All-insert extent_le extent_le-TotalOrder (NoOverlap y) x ys (NoOverlap-sym x y a.0) d.1,
    Disjoint-insert x ys n a.1 d.2,
  )
]

All-sort : (P : Extent → Type 0) (xs : List Extent) → All P xs → All P (sort extent_le xs)
unfolding sort
All-sort P [] a = tt
All-sort P (x ∷ xs) a =
    All-insert extent_le extent_le-TotalOrder P x (sort extent_le xs) a.0 (All-sort P xs a.1)

Disjoint-sort : (xs : List Extent) → Disjoint xs → Disjoint (sort extent_le xs)
unfolding sort
Disjoint-sort [] d = tt
Disjoint-sort (x ∷ xs) d =
    Disjoint-insert x (sort extent_le xs) d.0 (All-sort (NoOverlap x) xs d.1) (Disjoint-sort xs d.2)

check_windows_ok :
    (xs : List Extent) → IsSorted extent_le xs → Disjoint xs → check_windows xs ≡ ok tt
unfolding check_windows
check_windows_ok [] s d = refl
check_windows_ok (a ∷ []) s d = refl
check_windows_ok (a ∷ b ∷ es) s d =
    let rest = check_windows_ok (b ∷ es) s.1 d.2 in
    let first : a.addr + a.bytes ≤ b.addr = ground (arith, s.0.0, d.1.0, d.2.0) in
    ground (arith, rest, first)

block_extents_ok :
    (blocks : List (ℕ × ℕ))
    → All (λ b. b.1 * frame_bytes ≤ u64_max) blocks
    → block_extents blocks ≡ ok (map (λ b. record { addr = b.0; bytes = b.1 * frame_bytes }) blocks)
unfolding block_extents
block_extents_ok [] a = refl
block_extents_ok (b ∷ blocks) a =
    let fits : checked_mul b.1 frame_bytes ≡ some (b.1 * frame_bytes) = ground (arith, a.0) in
    rw (fits, block_extents_ok blocks a.1) refl

-- If memory is reserved, every block's length fits 64 bits, and what the address space owns is
-- freeable and does not overlap, then a plan is made: the owned extents, sorted.
pub plan_frees_total :
    (tables pages : List ℕ) (blocks : List (ℕ × ℕ)) (s e : ℕ)
    → e ≤ u64_max
    → All (λ b. b.1 * frame_bytes ≤ u64_max) blocks
    → All (IsFreeable s e) (owned tables pages blocks)
    → Disjoint (owned tables pages blocks)
    → plan_frees true tables pages blocks s e ≡ ok (sort extent_le (owned tables pages blocks))
unfolding plan_frees
plan_frees_total tables pages blocks s e w fits free apart =
    let xs = owned tables pages blocks in
    let checks = (check_extents_iff s e xs w).1 free in
    let windows =
      check_windows_ok (sort extent_le xs) (sort-IsSorted extent_le extent_le-TotalOrder xs)
        (Disjoint-sort xs apart) in
    rw (plan_frees, block_extents_ok blocks fits, checks, windows) refl
