-- ===== src/Thread.antt =====
-- source/thread: what threads wait for.
pub mod SpinLock
pub mod Mutex
pub mod CondVar
pub mod Event
pub mod UniqueLock
pub mod WaitGroup
mod Tests
