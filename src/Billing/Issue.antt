-- ===== src/Billing/Issue.antt =====
-- `issue_bill` of apps/billing/services.py, in the order in which it writes.
pub mod Merge
pub mod Arrears
pub mod Run
pub mod MergeLaws
pub mod ArrearsLaws
pub mod Frame
pub mod Steady
pub mod Invariants
