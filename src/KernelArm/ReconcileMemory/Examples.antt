-- ===== src/KernelArm/ReconcileMemory/Examples.antt =====
-- Runs of `ReconcileMemory` of kernel-arm/src/audit_chain.rs, and the theorem at one of them.
use runix.Base.{Bytes, [], refl, some, true, ◌↔◌, ◌∷◌, ◌≡◌}
use runix.Base.Membership.{In}
use runix.KernelArm.ReconcileMemory.{coalesce_pass, new_memory, observe, record_pass}
use runix.KernelArm.ReconcileMemory.Fresh.{flag_at, observe-fresh_iff}

clean_runs :
    ((observe new_memory []).0.clean ≡ some (record_pass 1))
    × ((observe (observe new_memory []).1 []).0.clean ≡ some (coalesce_pass 2))
unfolding observe
clean_runs = (refl, refl)

abbrev key_7 : Bytes
key_7 = 7 ∷ []

abbrev key_9 : Bytes
key_9 = 9 ∷ []

observe-fresh_iff_example :
    (flag_at (observe (observe new_memory (key_7 ∷ [])).1 (key_7 ∷ key_9 ∷ [])).0.fresh 1 ≡ true)
    ↔ ((¬ In key_9 (key_7 ∷ [])) × (¬ In key_9 (key_7 ∷ [])))
observe-fresh_iff_example = observe-fresh_iff new_memory (key_7 ∷ []) (key_7 ∷ []) key_9 []
