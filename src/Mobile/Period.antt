-- ===== src/Mobile/Period.antt =====
-- mobile/src/period.rs: billing periods, the reset decision and the read-only period check.
pub mod Defs
pub mod Assess
pub mod Resets
pub mod Check
mod Examples
