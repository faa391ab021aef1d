-- ===== src/Sync.antt =====
-- Wait queues and semaphores: lab8/kern/sync/wait.c and lab8/kern/sync/sem.c.
pub mod Wait
pub mod Semaphore
pub mod Wake
mod Tests
