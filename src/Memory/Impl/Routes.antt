-- ===== src/Memory/Impl/Routes.antt =====
-- The routes of `Reallocate` of code/util/cust_memory_pool.cc when there are no preallocated
-- buffers: which calls of the platform each one makes, and in which order.
use lab_cpp.Base.{ℕ, ◌+◌, ◌≡◌, ◌⊎◌, true, false, arith, ltb, leb}
use lab_cpp.Memory.Platform.{Platform}
use lab_cpp.Memory.Guarded.GuardedMap
use lab_cpp.Memory.Sizes.{
  huge_alloc_threshold_bytes, small_alloc_threshold_bytes, huge_alloc_runway_size_bytes, size_sub,
  whole_page_size,
}
use lab_cpp.Memory.Impl.{Build, Impl, Done}
use lab_cpp.Memory.Impl.Calls.{reallocate}
use lab_cpp.Memory.Impl.Maps.{takes_runway}

module _ (P : Platform) (build : Build) (pooled : build.pool_allocator ≡ false)
    (old_size new_size ptr : ℕ) (s : Impl P) where
  abbrev after : Done P
  after = reallocate P build old_size new_size ptr s

  pub leave-world :
      takes_runway P build old_size new_size ≡ true
      → GuardedMap.contains ptr s.large_allocs ≡ true
      → ltb new_size small_alloc_threshold_bytes ≡ true
      → let a = P.pool_allocate new_size ptr s.world in
        after.impl.world
        ≡ P.munmap ptr huge_alloc_runway_size_bytes (P.memcpy a.ptr ptr new_size a.world)
  unfolding reallocate
  leave-world t c l = ground arith

  pub stay-world :
      takes_runway P build old_size new_size ≡ true
      → GuardedMap.contains ptr s.large_allocs ≡ true
      → ltb new_size small_alloc_threshold_bytes ≡ false
      → (after.impl.world ≡ s.world)
        ⊎ (after.impl.world
            ≡ (P.madvise
                (ptr + whole_page_size new_size)
                (size_sub old_size (whole_page_size new_size))
                s.world).1)
  unfolding reallocate
  stay-world t c l = ground arith

  pub enter-world :
      takes_runway P build old_size new_size ≡ true
      → GuardedMap.contains ptr s.large_allocs ≡ false
      → leb huge_alloc_threshold_bytes new_size ≡ true
      → let m = P.mmap huge_alloc_runway_size_bytes s.world in
        after.impl.world ≡ P.pool_free ptr old_size (P.memcpy m.0 ptr old_size m.1)
  unfolding reallocate
  enter-world t c l = ground arith

  pub forward-world :
      (takes_runway P build old_size new_size ≡ false)
        ⊎ ((GuardedMap.contains ptr s.large_allocs ≡ false)
            × (leb huge_alloc_threshold_bytes new_size ≡ false))
      → (after.impl.world ≡ (P.pool_reallocate old_size new_size ptr s.world).world)
        × (after.status ≡ (P.pool_reallocate old_size new_size ptr s.world).status)
  unfolding reallocate
  forward-world t = ground arith
