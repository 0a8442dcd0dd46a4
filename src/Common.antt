-- ===== src/Common.antt =====
-- apps/common: what a user may see of the payers.
pub mod Scoping
