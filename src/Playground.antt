-- ===== src/Playground.antt =====
-- The programs of code/playground: those that drive the pool of code/util/async_queue.h, and two others.
pub mod Dispatch
pub mod Scheduler
pub mod Bandwidth
pub mod Columns
pub mod RawAlloc
pub mod Simd
pub mod Pages
pub mod Aggregate
pub mod Programs
