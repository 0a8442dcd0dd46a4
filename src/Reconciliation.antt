-- ===== src/Reconciliation.antt =====
-- apps/reconciliation: the daily matching of a channel's bank feed with the platform's payments.
pub mod Match
pub mod Run
pub mod Live
