-- ===== src/Memory.antt =====
-- code/util/cust_memory_pool.h and code/util/cust_memory_pool.cc: a memory pool in front of
-- another one, which keeps large buffers on runways of reserved address space.
pub mod Sizes
pub mod Guarded
pub mod Platform
pub mod Impl
pub mod Facade
