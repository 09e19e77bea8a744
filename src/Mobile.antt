-- ===== src/Mobile.antt =====
-- The crate mobile: the pure models of the mobile operator's stack.
pub mod Policy
pub mod Period
pub mod Selection
pub mod Account
