-- ===== src/Memory/Impl/Maps.antt =====
-- What each call of code/util/cust_memory_pool.cc does to the map of runways.
use lab_cpp.Base.{ℕ, ◌≡◌, Bool, arith, if◌then◌else◌, ltb, leb, ◌&&◌, ◌||◌}
use lab_cpp.Base.Key.{nat_key}
use lab_cpp.Memory.Platform.{Platform}
use lab_cpp.Memory.Guarded.GuardedMap
use lab_cpp.Memory.Sizes.{
  huge_alloc_threshold_bytes, small_alloc_threshold_bytes, huge_alloc_runway_size_bytes,
}
use lab_cpp.Memory.Impl.{Build, Impl}
use lab_cpp.Memory.Impl.Runway.{runway_reallocate}
use lab_cpp.Memory.Impl.Calls.{allocate, reallocate, reallocate_pooled, free}

module _ (P : Platform) where
  -- The map of runways after each call, with everything else put aside.
  pub runway_reallocate-large_allocs :
      (old_size new_size ptr : ℕ) (s : Impl P)
      → (runway_reallocate P old_size new_size ptr s).impl.large_allocs ≡ (
          if GuardedMap.contains ptr s.large_allocs
          then (if ltb new_size small_alloc_threshold_bytes
              then (GuardedMap.erase ptr s.large_allocs).1
              else GuardedMap.set ptr new_size s.large_allocs)
          else (if leb huge_alloc_threshold_bytes new_size
              then GuardedMap.set
                  (P.mmap huge_alloc_runway_size_bytes s.world).0
                  new_size
                  s.large_allocs
              else s.large_allocs))
  unfolding runway_reallocate
  runway_reallocate-large_allocs old_size new_size ptr s = ground arith

  module _ (build : Build) where
    abbrev pub takes_runway : ℕ → ℕ → Bool
    takes_runway old_size new_size =
        build.runway_allocator
        && (leb small_alloc_threshold_bytes old_size || leb huge_alloc_threshold_bytes new_size)

    reallocate_pooled-large_allocs :
        (old_size new_size previous_ptr ptr : ℕ) (s : Impl P)
        → (reallocate_pooled P build old_size new_size previous_ptr ptr s).impl.large_allocs
          ≡ s.large_allocs
    unfolding reallocate_pooled
    reallocate_pooled-large_allocs old_size new_size previous_ptr ptr s = ground arith

    pub reallocate-large_allocs :
        (old_size new_size ptr : ℕ) (s : Impl P)
        → (reallocate P build old_size new_size ptr s).impl.large_allocs ≡ (
            if takes_runway old_size new_size
            then (runway_reallocate P old_size new_size ptr s).impl.large_allocs
            else s.large_allocs)
    unfolding reallocate
    reallocate-large_allocs old_size new_size ptr s = ground (
      arith,
      reallocate_pooled-large_allocs old_size new_size ptr ptr s,
      reallocate_pooled-large_allocs old_size new_size ptr
          (runway_reallocate P old_size new_size ptr s).ptr
          (runway_reallocate P old_size new_size ptr s).impl,
    )

    pub allocate-large_allocs :
        (size out : ℕ) (s : Impl P)
        → (allocate P build size out s).impl.large_allocs ≡ (
            if build.runway_allocator && leb huge_alloc_threshold_bytes size
            then GuardedMap.set (P.mmap huge_alloc_runway_size_bytes s.world).0 size s.large_allocs
            else s.large_allocs)
    unfolding allocate
    allocate-large_allocs size out s = ground arith

    pub free-large_allocs :
        (buffer size : ℕ) (s : Impl P)
        → (free P build buffer size s).large_allocs ≡ (
            if build.runway_allocator && leb small_alloc_threshold_bytes size
            then (GuardedMap.erase buffer s.large_allocs).1
            else s.large_allocs)
    unfolding free
    free-large_allocs buffer size s = ground arith
