-- ===== src/Memory/Guarded.antt =====
-- The containers of code/util/cust_memory_pool.cc. Each method holds its lock from its first line
-- to its last, so that it is one step; addresses are numbers, and nullptr is 0.
pub mod GuardedMap
pub mod GuardedQueue
pub mod LinkedSet
