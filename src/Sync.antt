-- ===== src/Sync.antt =====
-- Processes that wait (lab7/kern/sync).
pub mod Wait
pub mod Sem
