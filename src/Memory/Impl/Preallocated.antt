-- ===== src/Memory/Impl/Preallocated.antt =====
-- The buffers that the constructor of code/util/cust_memory_pool.cc maps under
-- ACTIVATE_POOL_ALLOCATOR, and the users of the pool who hold them.
use lab_cpp.Base.{
  ℕ, ◌+◌, ◌≡◌, ◌≢◌, refl, true, false, ◌&&◌, Option, none, some, List, [], ◌∷◌, ◌++◌, if◌then◌else◌,
  ltb, ◌==◌, weigh, weigh-append, arith, Option-cases, Bool-cases, inl, inr, ◌∙◌, sym,
}
use mathlib.Core.Option.{some-injective}
use mathlib.Core.Path.{subst, ap}
use lab_cpp.Base.Status.{Status, success, failure}
use lab_cpp.Memory.Platform.{Platform}
use lab_cpp.Memory.Guarded.GuardedQueue
use lab_cpp.Memory.Impl.{Build, Impl, Done}
use lab_cpp.Memory.Impl.Calls.{allocate, reallocate, free}
use lab_cpp.Memory.Impl.PoolAlloc.{pool_allocate}

abbrev pub is_at : ℕ → ℕ → ℕ
is_at a b = if b == a then 1 else 0

-- How often an address stands in a list.
abbrev pub count : ℕ → List ℕ → ℕ
count a = weigh (is_at a)

-- The pool with the buffers that its users hold.
pub record Users (P : Platform) : Type 0 where
  pub impl : Impl P
  pub held : List ℕ

-- A user asks for a buffer, by Allocate or by a Reallocate of none; changes the size of one; or frees
-- it. All sizes but the none's are positive.
pub data Use : Type 0 where
  takes : (size out : ℕ) → Use
  takes_by_reallocate : (size ptr : ℕ) → Use
  resizes : (old_size new_size buffer : ℕ) → Use
  gives_back : (buffer size : ℕ) → Use

unfoldable pub remove : ℕ → List ℕ → Option (List ℕ)
remove a [] = none
remove a (b ∷ bs) =
    let rest = remove a bs in
    if b == a then some bs else elim rest [ none ↦ none | some left ↦ some (b ∷ left) ]

-- The buffers of the users after a call that asked for one.
unfoldable pub joins : Status → ℕ → List ℕ → List ℕ
joins success ptr held = ptr ∷ held
joins (failure c m) ptr held = held

module _ (P : Platform) where
  unfoldable pub taken : Done P → Users P → Users P
  unfolding joins
  taken d u = record { impl = d.impl; held = joins d.status d.ptr u.held }

  module _ (build : Build) where
    unfoldable pub gave : ℕ → ℕ → Impl P → Option (List ℕ) → Option (Users P)
    unfolding free
    gave buffer size s none = none
    gave buffer size s (some left) =
        if size == 0 then none else some (record { impl = free P build buffer size s; held = left })

    unfoldable pub use_pool : Use → Users P → Option (Users P)
    unfolding taken remove gave allocate reallocate
    use_pool (takes size out) u =
        if size == 0 then none else some (taken (allocate P build size out u.impl) u)
    use_pool (takes_by_reallocate size ptr) u =
        if size == 0 then none else some (taken (reallocate P build 0 size ptr u.impl) u)
    use_pool (resizes old_size new_size buffer) u =
        if ltb 0 old_size && ltb 0 new_size
        then some (record u { impl = (reallocate P build old_size new_size buffer u.impl).impl })
        else none
    use_pool (gives_back buffer size) u = gave buffer size u.impl (remove buffer u.held)

    pub data UsedFrom (start : Impl P) : Users P → Type 0 where
      begin : UsedFrom start (record { impl = start; held = [] })
      later :
          {u v : Users P} → UsedFrom start u → (a : Use) → use_pool a u ≡ some v → UsedFrom start v

count-remove :
    (a b : ℕ) (bs left : List ℕ) → remove b bs ≡ some left → count a bs ≡ count a left + is_at a b
unfolding remove
count-remove a b [] left e = cc
count-remove a b (c ∷ bs) left e = elim (Option-cases (remove b bs)) [
  | inl n ↦ ground arith
  | inr (rest, r) ↦ ground (arith, count-remove a b bs rest r)
]

module _ (P : Platform) (build : Build) (pooled : build.pool_allocator ≡ true)
    (unmanaged : build.runway_allocator ≡ false) (a : ℕ) where
  abbrev all_of : Users P → ℕ
  all_of u = count a u.impl.pool_allocs + count a u.held

  -- What a call hands out.
  abbrev gained : Status → ℕ → ℕ
  gained success ptr = is_at a ptr
  gained (failure c m) ptr = 0

  pool_allocate-gained :
      (size out : ℕ) (s : Impl P) (queue : List ℕ)
      → s.pool_allocs ≡ queue
      → a ≢ 0
      → count a (pool_allocate P size out s).impl.pool_allocs
          + gained (pool_allocate P size out s).status (pool_allocate P size out s).ptr
        ≡ count a queue
  unfolding pool_allocate GuardedQueue.pop
  pool_allocate-gained size out s [] q n = rw q (ground arith)
  pool_allocate-gained size out s (b ∷ queue) q n = rw q (ground arith)

  joins-count :
      (status : Status) (ptr : ℕ) (held : List ℕ)
      → count a (joins status ptr held) ≡ gained status ptr + count a held
  unfolding joins
  joins-count success ptr held = refl
  joins-count (failure c m) ptr held = omega arith

  allocate-queue :
      (size out : ℕ) (s : Impl P)
      → (size == 0) ≡ false
      → (allocate P build size out s).impl.pool_allocs
        ≡ (pool_allocate P size out s).impl.pool_allocs
  unfolding allocate pool_allocate
  allocate-queue size out s z = ground arith

  allocate-given :
      (size out : ℕ) (s : Impl P)
      → (size == 0) ≡ false
      → ((allocate P build size out s).status ≡ (pool_allocate P size out s).status)
        × ((allocate P build size out s).ptr ≡ (pool_allocate P size out s).ptr)
  unfolding allocate pool_allocate
  allocate-given size out s z = ground arith

  reallocate-queue :
      (size ptr : ℕ) (s : Impl P)
      → (size == 0) ≡ false
      → (reallocate P build 0 size ptr s).impl.pool_allocs
        ≡ (pool_allocate P size ptr s).impl.pool_allocs
  unfolding reallocate pool_allocate
  reallocate-queue size ptr s z = ground arith

  reallocate-given :
      (size ptr : ℕ) (s : Impl P)
      → (size == 0) ≡ false
      → ((reallocate P build 0 size ptr s).status ≡ (pool_allocate P size ptr s).status)
        × ((reallocate P build 0 size ptr s).ptr ≡ (pool_allocate P size ptr s).ptr)
  unfolding reallocate pool_allocate
  reallocate-given size ptr s z = ground arith

  resize-queue :
      (old_size new_size buffer : ℕ) (s : Impl P)
      → ltb 0 old_size ≡ true
      → ltb 0 new_size ≡ true
      → (reallocate P build old_size new_size buffer s).impl.pool_allocs ≡ s.pool_allocs
  unfolding reallocate
  resize-queue old_size new_size buffer s o n = ground arith

  free-queue :
      (buffer size : ℕ) (s : Impl P)
      → (size == 0) ≡ false
      → (free P build buffer size s).pool_allocs ≡ s.pool_allocs ++ buffer ∷ []
  unfolding free GuardedQueue.push
  free-queue buffer size s z = ground arith

  taken-conserves :
      (size out : ℕ) (d : Done P) (u : Users P)
      → a ≢ 0
      → d.impl.pool_allocs ≡ (pool_allocate P size out u.impl).impl.pool_allocs
      → (d.status ≡ (pool_allocate P size out u.impl).status)
        × (d.ptr ≡ (pool_allocate P size out u.impl).ptr)
      → all_of (taken P d u) ≡ all_of u
  unfolding taken
  taken-conserves size out d u n q (e, f) =
      rw (joins-count d.status d.ptr u.held, q, e, f)
        (omega (arith, pool_allocate-gained size out u.impl u.impl.pool_allocs refl n))

  gave-none : (buffer size : ℕ) (u : Users P) → gave P build buffer size u.impl none ≡ none
  unfolding gave
  gave-none buffer size u = refl

  gave-left :
      (buffer size : ℕ) (u : Users P) (left : List ℕ)
      → (size == 0) ≡ false
      → gave P build buffer size u.impl (some left)
        ≡ some (record { impl = free P build buffer size u.impl; held = left })
  unfolding gave
  gave-left buffer size u left z = rw z refl

  gives_back-held :
      (buffer size : ℕ) (u : Users P) (left : List ℕ)
      → remove buffer u.held ≡ some left
      → (size == 0) ≡ false
      → use_pool P build (gives_back buffer size) u
        ≡ some (record { impl = free P build buffer size u.impl; held = left })
  unfolding use_pool
  gives_back-held buffer size u left r z = rw r (gave-left buffer size u left z)

  free-conserves :
      (buffer size : ℕ) (u : Users P) (left : List ℕ)
      → remove buffer u.held ≡ some left
      → (size == 0) ≡ false
      → count a (free P build buffer size u.impl).pool_allocs + count a left ≡ all_of u
  free-conserves buffer size u left r z = rw (free-queue buffer size u.impl z) (
      omega (
        arith,
        weigh-append (is_at a) u.impl.pool_allocs (buffer ∷ []),
        count-remove a buffer u.held left r,
      ))

  use_pool-conserves :
      (u v : Users P) (x : Use) → a ≢ 0 → use_pool P build x u ≡ some v → all_of v ≡ all_of u
  unfolding use_pool
  use_pool-conserves u v (takes size out) n e = elim (Bool-cases (size == 0)) [
    | inl z ↦ ground arith
    | inr z ↦
        subst (λ w. all_of w ≡ all_of u) (some-injective _ _ (rw z at e))
          (taken-conserves size out (allocate P build size out u.impl) u n
            (allocate-queue size out u.impl z) (allocate-given size out u.impl z))
  ]
  use_pool-conserves u v (takes_by_reallocate size ptr) n e = elim (Bool-cases (size == 0)) [
    | inl z ↦ ground arith
    | inr z ↦
        subst (λ w. all_of w ≡ all_of u) (some-injective _ _ (rw z at e))
          (taken-conserves size ptr (reallocate P build 0 size ptr u.impl) u n
            (reallocate-queue size ptr u.impl z) (reallocate-given size ptr u.impl z))
  ]
  use_pool-conserves u v (resizes old_size new_size buffer) n e =
      elim (Bool-cases (ltb 0 old_size && ltb 0 new_size)) [
        | inl z ↦
            subst (λ w. all_of w ≡ all_of u) (some-injective _ _ (rw z at e))
              (ap (λ q. count a q + count a u.held)
                (resize-queue old_size new_size buffer u.impl (ground arith) (ground arith)))
        | inr z ↦ ground arith
      ]
  use_pool-conserves u v (gives_back buffer size) n e = elim (Option-cases (remove buffer u.held)) [
    | inl r ↦ ground (arith, gave-none buffer size u)
    | inr (left, r) ↦ elim (Bool-cases (size == 0)) [
      | inl z ↦ ground arith
      | inr z ↦
          subst (λ w. all_of w ≡ all_of u)
            (some-injective _ _ (sym (gives_back-held buffer size u left r z) ∙ e))
            (free-conserves buffer size u left r z)
    ]
  ]

  -- Built with the preallocated buffers and without the runways, where users take buffers with a
  -- positive size, resize them and free the ones they hold: an address other than nullptr
  -- stands in the queue and with the users together as often as in the queue at the start, so
  -- that no buffer is lost and none is given to two users.
  pub buffers_conserved :
      (start : Impl P) (u : Users P)
      → a ≢ 0
      → UsedFrom P build start u
      → count a u.impl.pool_allocs + count a u.held ≡ count a start.pool_allocs
  buffers_conserved start u n begin = omega arith
  buffers_conserved start u n (later h x e) =
      use_pool-conserves _ _ x n e ∙ buffers_conserved start _ n h
