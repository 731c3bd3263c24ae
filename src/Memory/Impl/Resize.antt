-- ===== src/Memory/Impl/Resize.antt =====
-- `Reallocate` of code/util/cust_memory_pool.cc against `bytes_allocated`.
use lab_cpp.Base.{
  ℕ, ◌+◌, ◌≤◌, Bool-cases, ap, le→leb, sym, ◌∙◌, ltb, leb, ◌≡◌, ◌⊎◌, inl, inr, refl, true, false,
  none, some, arith,
}
use lab_cpp.Base.Key.{nat_key}
use lab_cpp.Base.Status.{success}
use lab_cpp.Base.StdMap.{find}
use lab_cpp.Base.StdMap.Laws.{total, total-set_new, total-set_old, total-erase}
use lab_cpp.Memory.Platform.{Platform, Accounts}
use lab_cpp.Memory.Guarded.GuardedMap
use lab_cpp.Memory.Sizes.{
  huge_alloc_threshold_bytes, small_alloc_threshold_bytes, huge_alloc_runway_size_bytes,
}
use lab_cpp.Memory.Impl.{Build, Impl}
use lab_cpp.Memory.Impl.Invariant.{IsManaged}
use lab_cpp.Memory.Impl.Routes.{leave-world, stay-world, enter-world, forward-world}
use lab_cpp.Memory.Impl.Accounting
use lab_cpp.Memory.Impl.Maps.{reallocate-large_allocs, runway_reallocate-large_allocs, takes_runway}
use lab_cpp.Memory.Impl.Calls.{reallocate}

module _ (P : Platform) (build : Build) (pooled : build.pool_allocator ≡ false) where
  abbrev held : Impl P → ℕ
  held = Accounting.held P build pooled

  held-parts :
      (s : Impl P) → held s ≡ P.pool_bytes_allocated s.world + total (λ n. n) s.large_allocs
  held-parts = Accounting.held-parts P build pooled

  -- What `Reallocate` needs of its caller and of the platform: the buffer is on a runway with the
  -- size that the caller names, or it is the inner pool's; a new runway starts where none is; and
  -- the inner pool can take back a buffer that leaves its runway, which the code does not check.
  pub record Sound (old_size new_size ptr : ℕ) (s : Impl P) : Type 0 where
    pub managed : IsManaged s.large_allocs
    pub owner :
        (find ptr s.large_allocs ≡ some old_size)
        ⊎ ((find ptr s.large_allocs ≡ none) × (old_size ≤ P.pool_bytes_allocated s.world))
    pub fresh : Accounting.FreshRunway P build pooled s
    pub room : (P.pool_allocate new_size ptr s.world).status ≡ success

  -- On a runway, and small from now on.
  leave-held :
      (old_size new_size ptr : ℕ) (s : Impl P)
      → Accounts P
      → Sound old_size new_size ptr s
      → takes_runway P build old_size new_size ≡ true
      → find ptr s.large_allocs ≡ some old_size
      → ltb new_size small_alloc_threshold_bytes ≡ true
      → held (reallocate P build old_size new_size ptr s).impl + old_size ≡ held s + new_size
  unfolding GuardedMap.erase
  leave-held old_size new_size ptr s a h t e l =
      let c = GuardedMap.contains_of_some ptr old_size s.large_allocs e in
      let r = P.pool_allocate new_size ptr s.world in
      rw
        (
          held-parts (reallocate P build old_size new_size ptr s).impl,
          held-parts s,
          leave-world P build pooled old_size new_size ptr s t c l,
          reallocate-large_allocs P build old_size new_size ptr s,
          t,
          runway_reallocate-large_allocs P old_size new_size ptr s,
          c,
          l,
        )
        (omega (
          arith,
          a.unmapped ptr huge_alloc_runway_size_bytes (P.memcpy r.ptr ptr new_size r.world),
          a.copied r.ptr ptr new_size r.world,
          a.allocated new_size ptr s.world h.room,
          total-erase (λ (n : ℕ). n) ptr old_size s.large_allocs e,
        ))

  -- On a runway, and staying there.
  stay-held :
      (old_size new_size ptr : ℕ) (s : Impl P)
      → Accounts P
      → takes_runway P build old_size new_size ≡ true
      → find ptr s.large_allocs ≡ some old_size
      → ltb new_size small_alloc_threshold_bytes ≡ false
      → held (reallocate P build old_size new_size ptr s).impl + old_size ≡ held s + new_size
  unfolding GuardedMap.set
  stay-held old_size new_size ptr s a t e l =
      let c = GuardedMap.contains_of_some ptr old_size s.large_allocs e in
      rw
        (
          held-parts (reallocate P build old_size new_size ptr s).impl,
          held-parts s,
          reallocate-large_allocs P build old_size new_size ptr s,
          t,
          runway_reallocate-large_allocs P old_size new_size ptr s,
          c,
          l,
        )
        (omega (arith, total-set_old (λ (n : ℕ). n) ptr new_size old_size s.large_allocs e, same c))
    where
      same :
          GuardedMap.contains ptr s.large_allocs ≡ true
          → P.pool_bytes_allocated (reallocate P build old_size new_size ptr s).impl.world
            ≡ P.pool_bytes_allocated s.world
      same c = elim (stay-world P build pooled old_size new_size ptr s t c l) [
        | inl w ↦ ap P.pool_bytes_allocated w
        | inr w ↦ ap P.pool_bytes_allocated w ∙ a.advised _ _ s.world
      ]

  -- The inner pool's so far, and on a runway from now on.
  enter-held :
      (old_size new_size ptr : ℕ) (s : Impl P)
      → Accounts P
      → Sound old_size new_size ptr s
      → takes_runway P build old_size new_size ≡ true
      → find ptr s.large_allocs ≡ none
      → old_size ≤ P.pool_bytes_allocated s.world
      → leb huge_alloc_threshold_bytes new_size ≡ true
      → held (reallocate P build old_size new_size ptr s).impl + old_size ≡ held s + new_size
  unfolding GuardedMap.set
  enter-held old_size new_size ptr s a h t e k l =
      let c = GuardedMap.contains_of_none ptr s.large_allocs e in
      let m = P.mmap huge_alloc_runway_size_bytes s.world in
      rw
        (
          held-parts (reallocate P build old_size new_size ptr s).impl,
          held-parts s,
          enter-world P build pooled old_size new_size ptr s t c l,
          reallocate-large_allocs P build old_size new_size ptr s,
          t,
          runway_reallocate-large_allocs P old_size new_size ptr s,
          c,
          l,
        )
        (omega (
          arith,
          a.freed ptr old_size (P.memcpy m.0 ptr old_size m.1),
          a.copied m.0 ptr old_size m.1,
          a.mapped huge_alloc_runway_size_bytes s.world,
          total-set_new (λ (n : ℕ). n) m.0 new_size s.large_allocs h.fresh,
        ))

  -- Left to the inner pool.
  forward-held :
      (old_size new_size ptr : ℕ) (s : Impl P)
      → Accounts P
      → (takes_runway P build old_size new_size ≡ false)
        ⊎ ((GuardedMap.contains ptr s.large_allocs ≡ false)
            × (leb huge_alloc_threshold_bytes new_size ≡ false))
      → (reallocate P build old_size new_size ptr s).status ≡ success
      → held (reallocate P build old_size new_size ptr s).impl + old_size ≡ held s + new_size
  forward-held old_size new_size ptr s a t done =
      let (w, st) = forward-world P build pooled old_size new_size ptr s t in
      rw (held-parts (reallocate P build old_size new_size ptr s).impl, held-parts s, w, same t)
        (omega (arith, a.reallocated old_size new_size ptr s.world (sym st ∙ done)))
    where
      same :
          (takes_runway P build old_size new_size ≡ false)
            ⊎ ((GuardedMap.contains ptr s.large_allocs ≡ false)
                × (leb huge_alloc_threshold_bytes new_size ≡ false))
          → (reallocate P build old_size new_size ptr s).impl.large_allocs ≡ s.large_allocs
      same (inl f) = rw (reallocate-large_allocs P build old_size new_size ptr s, f)
      same (inr (c, l)) =
          rw
            (
              reallocate-large_allocs P build old_size new_size ptr s,
              runway_reallocate-large_allocs P old_size new_size ptr s,
              c,
              l,
            )
            (ground arith)

  -- Built with the runways and without the preallocated buffers, over an inner pool that keeps
  -- account as arrow documents, a successful `Reallocate` moves `bytes_allocated` by the
  -- difference of the two sizes, whichever way the buffer goes: it stays on its runway, leaves
  -- it, enters one, or is the inner pool's before and after. The buffer must be on a runway with
  -- the old size that the caller names, or be the inner pool's with at least that size allocated
  -- there; the runways must be as every history of calls leaves them; mmap must give no address
  -- that is already a runway; and the inner pool must have room for the new size.
  pub reallocate-held :
      (old_size new_size ptr : ℕ) (s : Impl P)
      → Accounts P
      → build.runway_allocator ≡ true
      → Sound old_size new_size ptr s
      → (reallocate P build old_size new_size ptr s).status ≡ success
      → held (reallocate P build old_size new_size ptr s).impl + old_size ≡ held s + new_size
  reallocate-held old_size new_size ptr s a on h done = go h.owner
    where
      managed :
          find ptr s.large_allocs ≡ some old_size → takes_runway P build old_size new_size ≡ true
      managed e = rw (on, le→leb _ _ (h.managed.large ptr old_size e)) refl

      unmanaged :
          find ptr s.large_allocs ≡ none
          → old_size ≤ P.pool_bytes_allocated s.world
          → (leb huge_alloc_threshold_bytes new_size ≡ true)
            ⊎ (leb huge_alloc_threshold_bytes new_size ≡ false)
          → held (reallocate P build old_size new_size ptr s).impl + old_size ≡ held s + new_size
      unmanaged e k (inl l) = enter-held old_size new_size ptr s a h (ground arith) e k l
      unmanaged e k (inr l) =
          forward-held old_size new_size ptr s a
            (inr (GuardedMap.contains_of_none ptr s.large_allocs e, l)) done

      go :
          (find ptr s.large_allocs ≡ some old_size)
            ⊎ ((find ptr s.large_allocs ≡ none) × (old_size ≤ P.pool_bytes_allocated s.world))
          → held (reallocate P build old_size new_size ptr s).impl + old_size ≡ held s + new_size
      go (inl e) = elim (Bool-cases (ltb new_size small_alloc_threshold_bytes)) [
        | inl l ↦ leave-held old_size new_size ptr s a h (managed e) e l
        | inr l ↦ stay-held old_size new_size ptr s a (managed e) e l
      ]
      go (inr (e, k)) = unmanaged e k (Bool-cases (leb huge_alloc_threshold_bytes new_size))
