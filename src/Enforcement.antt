-- ===== src/Enforcement.antt =====
-- apps/enforcement/services.py: debt cases of overdue bills.
pub mod Close
pub mod Cases
pub mod Ladder
