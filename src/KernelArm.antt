-- ===== src/KernelArm.antt =====
-- The crate kernel-arm: the governed state that the syscalls work on.
pub mod DataState
pub mod DataReset
pub mod AuditChain
pub mod Reclaim
pub mod ReconcileMemory
