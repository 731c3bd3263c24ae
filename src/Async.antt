-- ===== src/Async.antt =====
-- code/util/async_queue.h and code/util/async_queue.cc: requests that worker threads answer, and a
-- Synchronizer that counts the answers. An action is what one thread does between two points at
-- which another can be seen to run: a block under a lock, or the run of a request.
pub mod Synchronizer
pub mod Queue
pub mod Count
pub mod Conservation
pub mod Order
pub mod Shutdown
pub mod Work
pub mod Wakeup
