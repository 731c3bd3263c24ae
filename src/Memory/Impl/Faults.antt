-- ===== src/Memory/Impl/Faults.antt =====
-- Two places where CustomMemoryPoolImpl of code/util/cust_memory_pool.cc, built with
-- ACTIVATE_RUNWAY_ALLOCATOR, does not do what its interface promises.
use lab_cpp.Base.{ℕ, ◌+◌, ◌-◌, ◌^◌, ◌≤◌, ◌<◌, ◌≡◌, ◌≢◌, true, none, some, arith, le→leb}
use lab_cpp.Base.Key.{nat_key}
use lab_cpp.Base.Status.{failure, execution_error}
use lab_cpp.Base.StdMap.{find}
use lab_cpp.Base.StdMap.Laws.{erase_missing, find-set}
use lab_cpp.Base.Text.{codes}
use lab_cpp.Memory.Platform.{Platform}
use lab_cpp.Memory.Guarded.GuardedMap
use lab_cpp.Memory.Sizes.{small_alloc_threshold_bytes, page_size, size_sub, whole_page_size}
use lab_cpp.Memory.Impl.{Build, Impl}
use lab_cpp.Memory.Impl.Accounting
use lab_cpp.Memory.Impl.Calls.{reallocate, free}
use lab_cpp.Memory.Impl.Maps.{free-large_allocs}

module _ (P : Platform) (build : Build) (on : build.runway_allocator ≡ true) where
  -- Built with the runways, `Free` of a buffer that is on no runway, with a size from the small
  -- threshold on, gives the buffer back to nobody: neither the inner pool nor the system hears
  -- of it, and the runways stay.
  pub free_leaks :
      (buffer size : ℕ) (s : Impl P)
      → find buffer s.large_allocs ≡ none
      → small_alloc_threshold_bytes ≤ size
      → ((free P build buffer size s).world ≡ s.world)
        × ((free P build buffer size s).large_allocs ≡ s.large_allocs)
  unfolding GuardedMap.erase
  free_leaks buffer size s e h = (
    rw (
      Accounting.free-world P build buffer size s,
      on,
      le→leb _ _ h,
      GuardedMap.contains_of_none buffer s.large_allocs e,
    ),
    rw (free-large_allocs P build buffer size s, on, le→leb _ _ h)
        (erase_missing buffer s.large_allocs e),
  )

-- The length that is handed to madvise when a buffer shrinks within its last page.
advised_length :
    (old_size new_size : ℕ)
    → old_size < 2 ^ 63
    → new_size < old_size
    → old_size < whole_page_size new_size
    → 2 ^ 64 - page_size < size_sub old_size (whole_page_size new_size)
unfolding whole_page_size
advised_length old_size new_size b h k = ground arith

module _ (P : Platform) (build : Build) (on : build.runway_allocator ≡ true) where
  -- Built with the runways, over a system whose madvise refuses lengths that wrap when they are
  -- rounded up to a page, `Reallocate` of a buffer on a runway with the old size named, below 2
  -- ^ 63, fails whenever the new size, of at least the small threshold, is smaller, but its
  -- whole pages hold more than the old size: the difference is computed on size_t and wraps. The
  -- runway has taken the new size all the same.
  pub shrink_within_page_fails :
      (old_size new_size ptr : ℕ) (s : Impl P)
      → ((a n : ℕ) (w : P.World) → 2 ^ 64 - page_size < n → (P.madvise a n w).0 ≢ 0)
      → find ptr s.large_allocs ≡ some old_size
      → old_size < 2 ^ 63
      → small_alloc_threshold_bytes ≤ new_size
      → new_size < old_size
      → old_size < whole_page_size new_size
      → ((reallocate P build old_size new_size ptr s).status
          ≡ failure execution_error (codes "MADV_DONTNEED failed"))
        × (find ptr (reallocate P build old_size new_size ptr s).impl.large_allocs ≡ some new_size)
  unfolding reallocate
  shrink_within_page_fails old_size new_size ptr s refuses e b small h k = ground (
    arith,
    refuses (ptr + whole_page_size new_size) (size_sub old_size (whole_page_size new_size)) s.world,
    advised_length old_size new_size b h k,
    GuardedMap.contains_of_some ptr old_size s.large_allocs e,
    find-set ptr ptr new_size s.large_allocs,
  )
