-- ===== src/Sync.antt =====
-- Waiting and waking, lab8/kern/sync: wait queues and semaphores.
pub mod Wait
pub mod Sem
