-- ===== src/Settlements.antt =====
-- apps/settlements: the monthly computation of commissions and the status of a settlement.
pub mod Compute
pub mod Status
