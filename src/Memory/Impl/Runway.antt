-- ===== src/Memory/Impl/Runway.antt =====
-- runway_allocate, runway_reallocate and runway_free of code/util/cust_memory_pool.cc.
use lab_cpp.Base.{ℕ, ◌+◌, Bool, true, false, if◌then◌else◌, ltb, leb, ◌==◌}
use lab_cpp.Base.Status.{success, execution_error, Result, ok, err}
use lab_cpp.Base.Text.{codes}
use lab_cpp.Memory.Platform.{Platform}
use lab_cpp.Memory.Guarded.GuardedMap
use lab_cpp.Memory.Sizes.{
  huge_alloc_threshold_bytes, small_alloc_threshold_bytes, huge_alloc_runway_size_bytes,
  whole_page_size, size_sub,
}
use lab_cpp.Memory.Impl.{Impl, Done}

-- What a call that returns Result<bool> leaves: true means that it has made the allocation.
pub record Tried (P : Platform) : Type 0 where
  pub result : Result Bool
  pub ptr : ℕ
  pub impl : Impl P

module _ (P : Platform) where
  -- The result of mmap is not checked.
  unfoldable pub runway_allocate : ℕ → Impl P → Done P
  unfolding GuardedMap.set
  runway_allocate size s =
      let (raw_ptr, w) = P.mmap huge_alloc_runway_size_bytes s.world in
      record {
        status = success;
        ptr = raw_ptr;
        impl = record s { world = w; large_allocs = GuardedMap.set raw_ptr size s.large_allocs };
      }

  unfoldable pub runway_free : ℕ → ℕ → Impl P → Impl P
  unfolding GuardedMap.erase
  runway_free buffer size s =
      let (is_erased, map) = GuardedMap.erase buffer s.large_allocs in
      if is_erased
      then record s {
        world = P.munmap buffer huge_alloc_runway_size_bytes s.world;
        large_allocs = map;
      }
      else record s { large_allocs = map }

  -- Managed, and so small now that it goes back to the inner pool, whose status is not read.
  unfoldable pub leave_runway : ℕ → ℕ → ℕ → Impl P → Tried P
  unfolding runway_free
  leave_runway old_size new_size previous_ptr s =
      let a = P.pool_allocate new_size previous_ptr s.world in
      record {
        result = ok true;
        ptr = a.ptr;
        impl =
            runway_free previous_ptr old_size
              (record s { world = P.memcpy a.ptr previous_ptr new_size a.world });
      }

  -- Managed, and resized in place. `old_size - new_wps` is computed on size_t.
  unfoldable pub stay_on_runway : ℕ → ℕ → ℕ → Impl P → Tried P
  unfolding GuardedMap.set
  stay_on_runway old_size new_size ptr s =
      let t : Impl P = record s { large_allocs = GuardedMap.set ptr new_size s.large_allocs } in
      let new_wps = whole_page_size new_size in
      let (madv_result, w) = P.madvise (ptr + new_wps) (size_sub old_size new_wps) t.world in
      if ltb new_size old_size
      then (if ltb 0 (size_sub old_size new_wps)
          then (if madv_result == 0
              then record { result = ok true; ptr = ptr; impl = record t { world = w } }
              else record {
                result = err execution_error (codes "MADV_DONTNEED failed");
                ptr = ptr;
                impl = record t { world = w };
              })
          else record { result = ok true; ptr = ptr; impl = t })
      else record { result = ok true; ptr = ptr; impl = t }

  -- Not managed, and grown huge: from now on it is on a runway.
  unfoldable pub enter_runway : ℕ → ℕ → ℕ → Impl P → Tried P
  unfolding runway_allocate
  enter_runway old_size new_size previous_ptr s =
      let d = runway_allocate new_size s in
      let w = P.memcpy d.ptr previous_ptr old_size d.impl.world in
      record {
        result = ok true;
        ptr = d.ptr;
        impl = record (d.impl) { world = P.pool_free previous_ptr old_size w };
      }

  unfoldable pub runway_reallocate : ℕ → ℕ → ℕ → Impl P → Tried P
  unfolding GuardedMap.contains leave_runway stay_on_runway enter_runway
  runway_reallocate old_size new_size ptr s =
      if GuardedMap.contains ptr s.large_allocs
      then (if ltb new_size small_alloc_threshold_bytes
          then leave_runway old_size new_size ptr s
          else stay_on_runway old_size new_size ptr s)
      else (if leb huge_alloc_threshold_bytes new_size
          then enter_runway old_size new_size ptr s
          else record { result = ok false; ptr = ptr; impl = s })
