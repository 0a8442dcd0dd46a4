-- ===== src/Payments.antt =====
-- apps/payments/services.py: the single money-in path and its undoing.
pub mod Request
pub mod Fifo
pub mod Post
pub mod Reverse
pub mod Ledger
pub mod Frame
pub mod Effects
pub mod Outcomes
