-- ===== src/KernelArm/Reclaim/Examples.antt =====
-- Runs of kernel-arm/src/reclaim.rs, and the theorem at one of them.
use mathlib.Core.List.{Perm}
use runix.Base.{All, List, [], arith, err, inl, ok, refl, true, ◌∷◌, ◌≡◌}
use runix.Base.Sort.{sort}
use runix.KernelArm.Reclaim.{Extent, extent_le, frame, overlap, plan_frees}
use runix.KernelArm.Reclaim.Plan.{Apart, IsFreeable, owned, plan_frees-Apart}
use runix.KernelArm.Reclaim.Total.{plan_frees_total}

abbrev two_extents : List Extent
two_extents = frame 4096 ∷ record { addr = 12288; bytes = 8192 } ∷ []

-- A table frame and a block of two frames, in a heap from 4096 to 40960.
plans : plan_frees true (4096 ∷ []) [] ((12288, 2) ∷ []) 4096 40960 ≡ ok two_extents
unfolding plan_frees sort
plans = refl

refuses_double_free : plan_frees true (8192 ∷ []) (8192 ∷ []) [] 4096 40960 ≡ err (overlap 8192)
unfolding plan_frees sort
refuses_double_free = refl

plan_frees-Apart_example :
    Perm two_extents (owned (4096 ∷ []) [] ((12288, 2) ∷ []))
    × All (IsFreeable 4096 40960) (owned (4096 ∷ []) [] ((12288, 2) ∷ []))
    × Apart two_extents
plan_frees-Apart_example =
    plan_frees-Apart true (4096 ∷ []) [] ((12288, 2) ∷ []) 4096 40960 two_extents (omega arith)
      plans

plan_frees_total_example :
    plan_frees true (4096 ∷ []) [] ((12288, 2) ∷ []) 4096 40960
    ≡ ok (sort extent_le (owned (4096 ∷ []) [] ((12288, 2) ∷ [])))
plan_frees_total_example =
    plan_frees_total (4096 ∷ []) [] ((12288, 2) ∷ []) 4096 40960 (omega arith) (omega arith, tt)
      (
        (refl, omega arith, omega arith, omega arith),
        ((refl, omega arith, omega arith, omega arith), tt),
      )
      (omega arith, (inl (omega arith), tt), (omega arith, tt, tt))
