-- ===== src/Proc.antt =====
-- Threads, their queues and mutexes, and processes (weenix/kernel/proc).
pub mod Queue
pub mod Sched
pub mod Valid
pub mod Wake
pub mod Cancel
pub mod Mutex
pub mod MutexSafe
pub mod Process
pub mod Wait
pub mod Pids
mod Tests
