-- ===== src/Revenue.antt =====
-- apps/revenue: the items of a council and their versioned rates.
pub mod Rates
pub mod Bands
