-- ===== src/Ws.antt =====
-- source/runtime/multi_thread/v2/ws: the work-stealing thread pool.
pub mod StealingQueue
pub mod GlobalQueue
pub mod Coordinator
pub mod Worker
mod Tests
