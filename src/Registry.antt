-- ===== src/Registry.antt =====
-- apps/registry: the enumeration of payers, and the portal of the ratepayers.
pub mod Payers
pub mod Portal
