-- ===== src/Kernel.antt =====
-- The parts of kernel/src that are modelled.
pub mod Ipc
