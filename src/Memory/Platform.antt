-- ===== src/Memory/Platform.antt =====
-- What code/util/cust_memory_pool.cc calls: the inner arrow::MemoryPool, and mmap, munmap, madvise,
-- memcpy and memset. They are parameters; `World` is all that they read and change.
use lab_cpp.Base.{ℕ, ◌+◌, ◌≤◌, ◌≡◌}
use lab_cpp.Base.Status.{Status, success}
use lab_cpp.Base.Text.{Text}

-- The answer of a call with an `uint8_t**` argument: what the pointer is afterwards.
pub record Allocated (World : Type 0) : Type 0 where
  pub status : Status
  pub ptr : ℕ
  pub world : World

pub record Platform : Type 1 where
  pub World : Type 0
  -- The inner pool. The arguments are the sizes, and the pointer before the call.
  pub pool_allocate : ℕ → ℕ → World → Allocated World
  pub pool_reallocate : ℕ → ℕ → ℕ → World → Allocated World
  pub pool_free : ℕ → ℕ → World → World
  pub pool_bytes_allocated : World → ℕ
  pub pool_backend_name : Text
  -- The system: length to address; address and length; address and length to 0 or an error.
  pub mmap : ℕ → World → ℕ × World
  pub munmap : ℕ → ℕ → World → World
  pub madvise : ℕ → ℕ → World → ℕ × World
  -- Destination, source, count; destination, byte, count.
  pub memcpy : ℕ → ℕ → ℕ → World → World
  pub memset : ℕ → ℕ → ℕ → World → World

-- The documented accounting of an arrow::MemoryPool: a successful call moves `bytes_allocated` by
-- the difference of the sizes, and the system calls do not touch it.
pub record Accounts (P : Platform) : Type 0 where
  pub allocated :
      (size ptr : ℕ) (w : P.World)
      → (P.pool_allocate size ptr w).status ≡ success
      → P.pool_bytes_allocated (P.pool_allocate size ptr w).world ≡ P.pool_bytes_allocated w + size
  pub reallocated :
      (old_size new_size ptr : ℕ) (w : P.World)
      → (P.pool_reallocate old_size new_size ptr w).status ≡ success
      → P.pool_bytes_allocated (P.pool_reallocate old_size new_size ptr w).world + old_size
        ≡ P.pool_bytes_allocated w + new_size
  pub freed :
      (ptr size : ℕ) (w : P.World)
      → size ≤ P.pool_bytes_allocated w
      → P.pool_bytes_allocated (P.pool_free ptr size w) + size ≡ P.pool_bytes_allocated w
  pub mapped :
      (n : ℕ) (w : P.World) → P.pool_bytes_allocated (P.mmap n w).1 ≡ P.pool_bytes_allocated w
  pub unmapped :
      (a n : ℕ) (w : P.World) → P.pool_bytes_allocated (P.munmap a n w) ≡ P.pool_bytes_allocated w
  pub advised :
      (a n : ℕ) (w : P.World)
      → P.pool_bytes_allocated (P.madvise a n w).1 ≡ P.pool_bytes_allocated w
  pub copied :
      (d s n : ℕ) (w : P.World)
      → P.pool_bytes_allocated (P.memcpy d s n w) ≡ P.pool_bytes_allocated w
