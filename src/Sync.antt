-- ===== src/Sync.antt =====
-- source/fiber/sync: what fibers wait for. Each call holds a spin lock up to the point where the fiber is
-- suspended and the callback of `Park` gives the lock back, so it is one step.
pub mod WaitQueue
pub mod Mutex
pub mod WaitGroup
pub mod Event
mod Tests
