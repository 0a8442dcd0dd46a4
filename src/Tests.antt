-- ===== src/Tests.antt =====
-- A sample council, and runs of the modelled services on it.
mod Sample
mod Payments
mod Channels
mod Issue
mod Handlers
mod Fieldops
mod Billing
mod Councils
mod People
mod Portal
