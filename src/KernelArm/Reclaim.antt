-- ===== src/KernelArm/Reclaim.antt =====
-- kernel-arm/src/reclaim.rs: which heap extents an address space gives back.
pub mod Plan
pub mod Total
mod Examples
use runix.Base.{
  Bool, List, Result, [], checked_add, checked_mul, ensure, err, if◌then◌else◌, leb, ltb, map, not,
  ok, ok_or, ℕ, ◌%◌, ◌&&◌, ◌++◌, ◌+◌, ◌==◌, ◌>>=◌, ◌>>◌, ◌||◌, ◌∷◌,
}
use runix.Base.Sort.{sort}

abbrev pub frame_bytes : ℕ
frame_bytes = 4096

pub record Extent : Type 0 where
  pub addr : ℕ
  pub bytes : ℕ

pub data PlanError : Type 0 where
  misaligned bad_length outside_heap overlap : ℕ → PlanError

abbrev pub frame : ℕ → Extent
frame addr = record { addr = addr; bytes = frame_bytes }

-- The loop over the blocks.
pub block_extents : List (ℕ × ℕ) → Result PlanError (List Extent)
block_extents [] = ok []
block_extents ((addr, count) ∷ blocks) = do
  bytes ← ok_or (checked_mul count frame_bytes) (bad_length addr)
  rest ← block_extents blocks
  ok (record { addr = addr; bytes = bytes } ∷ rest)

pub check_extent : ℕ → ℕ → Extent → Result PlanError (Unit {0})
check_extent heap_start heap_end e = do
  ensure (e.addr % frame_bytes == 0) (misaligned e.addr)
  ensure (not (e.bytes == 0)) (bad_length e.addr)
  end ← ok_or (checked_add e.addr e.bytes) (bad_length e.addr)
  ensure (not (ltb e.addr heap_start || ltb heap_end end)) (outside_heap e.addr)

pub check_extents : ℕ → ℕ → List Extent → Result PlanError (Unit {0})
unfolding check_extent
check_extents heap_start heap_end [] = ok tt
check_extents heap_start heap_end (e ∷ es) =
    check_extent heap_start heap_end e >> check_extents heap_start heap_end es

-- The order of the sort. The source's sort leaves open how extents with one address stand; they are
-- refused in either order.
abbrev pub extent_le : Extent → Extent → Bool
extent_le a b = ltb a.addr b.addr || (a.addr == b.addr && leb a.bytes b.bytes)

-- The loop over `windows(2)`.
pub check_windows : List Extent → Result PlanError (Unit {0})
check_windows [] = ok tt
check_windows (a ∷ []) = ok tt
check_windows (a ∷ b ∷ es) =
    let rest = check_windows (b ∷ es) in
    if ltb b.addr (a.addr + a.bytes) then err (overlap b.addr) else rest

-- `reserved` is whether `try_reserve` succeeds.
pub plan_frees : Bool → List ℕ → List ℕ → List (ℕ × ℕ) → ℕ → ℕ → Result PlanError (List Extent)
unfolding block_extents check_extents check_windows
plan_frees reserved tables pages blocks heap_start heap_end = do
  ensure reserved (bad_length 0)
  runs ← block_extents blocks
  check_extents heap_start heap_end (map frame (tables ++ pages) ++ runs)
  check_windows (sort extent_le (map frame (tables ++ pages) ++ runs))
  ok (sort extent_le (map frame (tables ++ pages) ++ runs))
