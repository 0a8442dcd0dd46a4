-- ===== src/Channels.antt =====
-- apps/channels: the payload contract of a bank channel (Adapters), the keys that sign calls
-- (Clients), the council of a reference (Tenants) and the recording of what is received (Receive).
pub mod Adapters
pub mod Clients
pub mod Tenants
pub mod Receive
