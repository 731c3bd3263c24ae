-- ===== src/Memory/Impl/Invariant.antt =====
-- What the map of runways of code/util/cust_memory_pool.cc holds after every call.
use lab_cpp.Base.{
  ℕ, zero, suc, ◌≤◌, ◌≡◌, refl, Bool, true, false, some, List, [], ◌∷◌, arith, if◌then◌else◌, ltb,
  leb, ◌&&◌,
}
use lab_cpp.Base.Key.{nat_key}
use lab_cpp.Base.StdMap.{StdMap, find}
use lab_cpp.Base.StdMap.Laws.{Distinct, find-set, set-Distinct, erase-Distinct, find_of_erase}
use lab_cpp.Memory.Platform.{Platform}
use lab_cpp.Memory.Guarded.GuardedMap
use lab_cpp.Memory.Sizes.{huge_alloc_threshold_bytes, small_alloc_threshold_bytes, prealloc_count}
use lab_cpp.Memory.Impl.{Build, Impl, construct, preallocate, blank}
use lab_cpp.Memory.Impl.Runway.{runway_reallocate}
use lab_cpp.Memory.Impl.Calls.{allocate, reallocate, free}
use lab_cpp.Memory.Impl.Maps.{
  runway_reallocate-large_allocs, takes_runway, reallocate-large_allocs, allocate-large_allocs,
  free-large_allocs,
}

-- No address is on two runways, and no buffer on a runway is below the small threshold. `Free`
-- relies on it: it looks for a runway from that size on only.
pub record IsManaged (map : StdMap ℕ ℕ) : Type 0 where
  pub distinct : Distinct map
  pub large : (a size : ℕ) → find a map ≡ some size → small_alloc_threshold_bytes ≤ size

set-IsManaged :
    (a size : ℕ) (map : StdMap ℕ ℕ)
    → small_alloc_threshold_bytes ≤ size
    → IsManaged map
    → IsManaged (GuardedMap.set a size map)
unfolding GuardedMap.set
set-IsManaged a size map h i = record {
  distinct = set-Distinct a size map i.distinct;
  large = λ b n e. ground (arith, find-set b a size map, i.large b n);
}

erase-IsManaged : (a : ℕ) (map : StdMap ℕ ℕ) → IsManaged map → IsManaged (GuardedMap.erase a map).1
unfolding GuardedMap.erase
erase-IsManaged a map i = record {
  distinct = erase-Distinct a map i.distinct;
  large = λ b n e. i.large b n (find_of_erase b a n map i.distinct e);
}

-- A property of both results of a test holds of the conditional.
if-elim {ℓ κ} :
    {A : Type ℓ} (Q : A → Type κ) (b : Bool) {x y : A}
    → (b ≡ true → Q x)
    → (b ≡ false → Q y)
    → Q (if b then x else y)
if-elim Q true hx hy = hx refl
if-elim Q false hx hy = hy refl

-- A call of the pool, with its arguments.
pub data Call : Type 0 where
  allocates : (size out : ℕ) → Call
  reallocates : (old_size new_size ptr : ℕ) → Call
  frees : (buffer size : ℕ) → Call

empty : (a n : ℕ) → find {V = ℕ} a [] ≡ some n → ⊥
unfolding find
empty a n e = cc

module _ (P : Platform) (build : Build) where
  unfoldable pub step : Call → Impl P → Impl P
  step (allocates size out) s = (allocate P build size out s).impl
  step (reallocates old_size new_size ptr) s = (reallocate P build old_size new_size ptr s).impl
  step (frees buffer size) s = free P build buffer size s

  unfoldable pub run : List Call → Impl P → Impl P
  unfolding step
  run [] s = s
  run (c ∷ cs) s = run cs (step c s)

  runway_reallocate-IsManaged :
      (old_size new_size ptr : ℕ) (s : Impl P)
      → IsManaged s.large_allocs
      → IsManaged (runway_reallocate P old_size new_size ptr s).impl.large_allocs
  runway_reallocate-IsManaged old_size new_size ptr s i =
      rw (runway_reallocate-large_allocs P old_size new_size ptr s) (
        if-elim IsManaged (GuardedMap.contains ptr s.large_allocs)
          (λ _.
            if-elim IsManaged (ltb new_size small_alloc_threshold_bytes)
              (λ _. erase-IsManaged ptr s.large_allocs i)
              (λ e. set-IsManaged ptr new_size s.large_allocs (ground arith) i))
          (λ _.
            if-elim IsManaged (leb huge_alloc_threshold_bytes new_size)
              (λ e. set-IsManaged _ new_size s.large_allocs (ground arith) i) (λ _. i)))

  step-IsManaged :
      (c : Call) (s : Impl P) → IsManaged s.large_allocs → IsManaged (step c s).large_allocs
  unfolding step
  step-IsManaged (allocates size out) s i = rw (allocate-large_allocs P build size out s) (
      if-elim IsManaged (build.runway_allocator && leb huge_alloc_threshold_bytes size)
        (λ e. set-IsManaged _ size s.large_allocs (ground arith) i) (λ _. i))
  step-IsManaged (reallocates old_size new_size ptr) s i =
      rw (reallocate-large_allocs P build old_size new_size ptr s) (
        if-elim IsManaged (takes_runway P build old_size new_size)
          (λ _. runway_reallocate-IsManaged old_size new_size ptr s i) (λ _. i))
  step-IsManaged (frees buffer size) s i = rw (free-large_allocs P build buffer size s) (
      if-elim IsManaged (build.runway_allocator && leb small_alloc_threshold_bytes size)
        (λ _. erase-IsManaged buffer s.large_allocs i) (λ _. i))

  run_from-IsManaged :
      (cs : List Call) (s : Impl P) → IsManaged s.large_allocs → IsManaged (run cs s).large_allocs
  unfolding run
  run_from-IsManaged [] s i = i
  run_from-IsManaged (c ∷ cs) s i = run_from-IsManaged cs (step c s) (step-IsManaged c s i)

  preallocate-large_allocs :
      (n : ℕ) (s : Impl P) → (preallocate P n s).large_allocs ≡ s.large_allocs
  unfolding preallocate
  preallocate-large_allocs zero s = refl
  preallocate-large_allocs (suc n) s = preallocate-large_allocs n _

  construct-large_allocs :
      (garbage : ℕ) (w : P.World) → (construct P build garbage w).large_allocs ≡ []
  unfolding construct
  construct-large_allocs garbage w =
      ground (arith, preallocate-large_allocs prealloc_count (blank P garbage w))

  -- After any history of calls on a new pool, whatever the build and the answers of the platform,
  -- no address is on two runways, and every buffer on a runway has at least
  -- SMALL_ALLOC_THRESHOLD_BYTES bytes.
  pub run-IsManaged :
      (garbage : ℕ) (w : P.World) (cs : List Call)
      → IsManaged (run cs (construct P build garbage w)).large_allocs
  run-IsManaged garbage w cs = run_from-IsManaged cs (construct P build garbage w) (
      rw (construct-large_allocs garbage w)
        (record { distinct = tt; large = λ a n e. absurd (empty a n e) }))
