-- ===== src/Fieldops.antt =====
-- apps/fieldops: the replay of what field agents recorded offline, and their worklist.
pub mod Replay
pub mod Worklist
