-- ===== src/Sync.antt =====
-- kernel/lib/mutex.c and kernel/kernel/futex.c: sleeping locks and wait queues.
pub mod Mutex
pub mod Futex
