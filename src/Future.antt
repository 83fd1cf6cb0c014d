-- ===== src/Future.antt =====
-- source/future: one-shot contracts between a producer and a consumer, and the combinators that
-- join two futures. The two sides run on any threads: a run is a schedule of their steps, one access
-- to shared memory at a time, in a total order.
pub mod Interleave
pub mod Meet
pub mod Apart
pub mod Race
pub mod Promise
pub mod Contract
pub mod Both
pub mod BothOk
pub mod First
pub mod FirstOk
mod Tests
