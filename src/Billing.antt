-- ===== src/Billing.antt =====
-- apps/billing/services.py: pricing of assessments, issuing of bills, their lines and roll-up.
pub mod Recompute
pub mod History
pub mod Pricing
pub mod Lines
pub mod Issue
