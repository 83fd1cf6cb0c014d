-- ===== src/Chan.antt =====
-- source/fiber/chan: channels between fibers. Every call of a channel runs under its spin lock, up to
-- the point where the fiber is suspended and the callback of `Suspend` gives the lock back, so it is
-- one atomic step.
pub mod CircularBuffer
pub mod Waiter
pub mod Buffered
pub mod Rendezvous
pub mod Spec
pub mod Fifo
mod Tests
