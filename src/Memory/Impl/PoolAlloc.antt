-- ===== src/Memory/Impl/PoolAlloc.antt =====
-- pool_allocate, pool_reallocate and pool_free of code/util/cust_memory_pool.cc: buffers of
-- PREALLOC_SIZE_BYTES that the constructor has mapped.
use lab_cpp.Base.{ℕ, true, if◌then◌else◌, ltb, ◌==◌}
use lab_cpp.Base.Status.{success, failure, execution_error, ok, err}
use lab_cpp.Base.Text.{codes}
use lab_cpp.Memory.Platform.{Platform}
use lab_cpp.Memory.Guarded.GuardedQueue
use lab_cpp.Memory.Sizes.{prealloc_size_bytes}
use lab_cpp.Memory.Impl.{Impl, Done}
use lab_cpp.Memory.Impl.Runway.{Tried}

module _ (P : Platform) where
  unfoldable pub pool_allocate : ℕ → ℕ → Impl P → Done P
  unfolding GuardedQueue.pop
  pool_allocate size out s =
      let (alloc, queue) = GuardedQueue.pop s.pool_allocs in
      let t : Impl P = record s { pool_allocs = queue } in
      if ltb prealloc_size_bytes size
      then record {
        status = failure execution_error (codes "Allocation larger than PREALLOC_SIZE_BYTES");
        ptr = out;
        impl = s;
      }
      else (if alloc == 0
          then record {
            status = failure execution_error (codes "no more alloc in pool");
            ptr = out;
            impl = t;
          }
          else record { status = success; ptr = alloc; impl = t })

  -- RETURN_NOT_OK of a call, then `return true`.
  abbrev pub tried : Done P → Tried P
  tried d = record {
    result = elim d.status [ success ↦ ok true | failure c m ↦ err c m ];
    ptr = d.ptr;
    impl = d.impl;
  }

  unfoldable pub pool_reallocate : ℕ → ℕ → ℕ → Impl P → Tried P
  unfolding pool_allocate
  pool_reallocate old_size new_size ptr s =
      if old_size == 0
      then tried (pool_allocate new_size ptr s)
      else (if ltb prealloc_size_bytes new_size
          then record {
            result = err execution_error (codes "Reallocation larger than PREALLOC_SIZE_BYTES");
            ptr = ptr;
            impl = s;
          }
          else record { result = ok true; ptr = ptr; impl = s })

  unfoldable pub pool_free : ℕ → ℕ → Impl P → Impl P
  unfolding GuardedQueue.push
  pool_free buffer size s = record s { pool_allocs = GuardedQueue.push buffer s.pool_allocs }
