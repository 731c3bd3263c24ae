-- ===== src/Memory/Impl/Accounting.antt =====
-- `bytes_allocated` of code/util/cust_memory_pool.cc against the sizes that its callers hold.
use lab_cpp.Base.{
  ℕ, ◌+◌, ◌≤◌, ◌<◌, Bool, Bool-cases, le→leb, lt→leb_false, sym, ◌∙◌, if◌then◌else◌, ltb, leb, ◌&&◌,
  ◌≡◌, ◌⊎◌, inl, inr, refl, true, false, none, some, arith,
}
use lab_cpp.Base.Key.{nat_key}
use lab_cpp.Base.Status.{success}
use lab_cpp.Base.StdMap.{find}
use lab_cpp.Base.StdMap.Laws.{total, total-set_new, total-erase}
use lab_cpp.Memory.Platform.{Platform, Accounts}
use lab_cpp.Memory.Guarded.GuardedMap
use lab_cpp.Memory.Sizes.{
  huge_alloc_threshold_bytes, small_alloc_threshold_bytes, huge_alloc_runway_size_bytes,
}
use lab_cpp.Memory.Impl.{Build, Impl}
use lab_cpp.Memory.Impl.Maps.{allocate-large_allocs, free-large_allocs}
use lab_cpp.Memory.Impl.Calls.{allocate, free, bytes_allocated}

-- What `Free` does to the world outside.
pub free-world :
    (P : Platform) (build : Build) (buffer size : ℕ) (s : Impl P)
    → (free P build buffer size s).world ≡ (
        if build.runway_allocator && leb small_alloc_threshold_bytes size
        then (if GuardedMap.contains buffer s.large_allocs
            then P.munmap buffer huge_alloc_runway_size_bytes s.world
            else s.world)
        else (if build.pool_allocator && ltb 0 size
            then s.world
            else P.pool_free buffer size s.world))
unfolding free
free-world P build buffer size s = ground arith

module _ (P : Platform) (build : Build) (pooled : build.pool_allocator ≡ false) where
  -- Where `Allocate` goes, when there are no preallocated buffers.
  abbrev on_runway : ℕ → Bool
  on_runway size = build.runway_allocator && leb huge_alloc_threshold_bytes size

  allocate-world :
      (size out : ℕ) (s : Impl P)
      → (allocate P build size out s).impl.world ≡ (
          if on_runway size
          then (P.mmap huge_alloc_runway_size_bytes s.world).1
          else (P.pool_allocate size out s.world).world)
  unfolding allocate
  allocate-world size out s = ground arith

  allocate-status :
      (size out : ℕ) (s : Impl P)
      → (allocate P build size out s).status
        ≡ (if on_runway size then success else (P.pool_allocate size out s.world).status)
  unfolding allocate
  allocate-status size out s = ground arith

  -- The number that `bytes_allocated` returns.
  abbrev pub held : Impl P → ℕ
  held s = (bytes_allocated P build s).0

  pub held-parts :
      (s : Impl P) → held s ≡ P.pool_bytes_allocated s.world + total (λ n. n) s.large_allocs
  unfolding bytes_allocated
  held-parts s = refl

  -- A runway starts where none is.
  abbrev pub FreshRunway : Impl P → Type 0
  FreshRunway s = find (P.mmap huge_alloc_runway_size_bytes s.world).0 s.large_allocs ≡ none

  -- Without the preallocated buffers, over an inner pool that keeps account as arrow documents,
  -- a successful `Allocate` adds its size to `bytes_allocated`, on a runway or in the inner
  -- pool, if mmap gives no address that is already a runway.
  pub allocate-held :
      (size out : ℕ) (s : Impl P)
      → Accounts P
      → FreshRunway s
      → (allocate P build size out s).status ≡ success
      → held (allocate P build size out s).impl ≡ held s + size
  unfolding GuardedMap.set
  allocate-held size out s a fresh done =
      rw
        (
          held-parts (allocate P build size out s).impl,
          held-parts s,
          allocate-world size out s,
          allocate-large_allocs P build size out s,
        )
        (go (Bool-cases (on_runway size)))
    where
      go :
          (on_runway size ≡ true) ⊎ (on_runway size ≡ false)
          → P.pool_bytes_allocated (
                if on_runway size
                then (P.mmap huge_alloc_runway_size_bytes s.world).1
                else (P.pool_allocate size out s.world).world)
              + total
                  (λ n. n)
                  (if on_runway size
                    then GuardedMap.set
                        (P.mmap huge_alloc_runway_size_bytes s.world).0
                        size
                        s.large_allocs
                    else s.large_allocs)
            ≡ P.pool_bytes_allocated s.world + total (λ n. n) s.large_allocs + size
      go (inl e) = rw e (
          omega (
            arith,
            a.mapped huge_alloc_runway_size_bytes s.world,
            total-set_new (λ (n : ℕ). n) (P.mmap huge_alloc_runway_size_bytes s.world).0 size
                s.large_allocs fresh,
          ))
      go (inr e) = rw e (
          omega (
            arith,
            a.allocated size out s.world (rw e at (sym (allocate-status size out s) ∙ done)),
          ))

  -- Built with the runways and without the preallocated buffers, over an inner pool that keeps
  -- account as arrow documents, `Free` takes the size off `bytes_allocated`, if the buffer is on
  -- a runway with that size, of at least the small threshold, or if the size is below that
  -- threshold and no more than the inner pool has allocated.
  pub free-held :
      (buffer size : ℕ) (s : Impl P)
      → Accounts P
      → build.runway_allocator ≡ true
      → ((find buffer s.large_allocs ≡ some size) × (small_alloc_threshold_bytes ≤ size))
        ⊎ ((size < small_alloc_threshold_bytes) × (size ≤ P.pool_bytes_allocated s.world))
      → held (free P build buffer size s) + size ≡ held s
  unfolding GuardedMap.erase
  free-held buffer size s a on owner =
      rw
        (
          held-parts (free P build buffer size s),
          held-parts s,
          free-world P build buffer size s,
          free-large_allocs P build buffer size s,
          on,
          pooled,
        )
        (go owner)
    where
      go :
          ((find buffer s.large_allocs ≡ some size) × (small_alloc_threshold_bytes ≤ size))
            ⊎ ((size < small_alloc_threshold_bytes) × (size ≤ P.pool_bytes_allocated s.world))
          → P.pool_bytes_allocated (
                if leb small_alloc_threshold_bytes size
                then (if GuardedMap.contains buffer s.large_allocs
                    then P.munmap buffer huge_alloc_runway_size_bytes s.world
                    else s.world)
                else P.pool_free buffer size s.world)
              + total
                  (λ n. n)
                  (if leb small_alloc_threshold_bytes size
                    then (GuardedMap.erase buffer s.large_allocs).1
                    else s.large_allocs)
              + size
            ≡ P.pool_bytes_allocated s.world + total (λ n. n) s.large_allocs
      go (inl (e, h)) =
          rw (le→leb _ _ h, GuardedMap.contains_of_some buffer size s.large_allocs e)
            (omega (
              arith,
              a.unmapped buffer huge_alloc_runway_size_bytes s.world,
              total-erase (λ (n : ℕ). n) buffer size s.large_allocs e,
            ))
      go (inr (h, k)) = rw (lt→leb_false _ _ h) (omega (arith, a.freed buffer size s.world k))
