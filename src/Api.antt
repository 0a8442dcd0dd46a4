-- ===== src/Api.antt =====
-- The handlers of the bills' and the payments' API, behind the checks of the caller's role.
pub mod Answers
pub mod Bills
pub mod Payments
