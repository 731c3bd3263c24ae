-- ===== src/Memory/Impl/Calls.antt =====
-- The public calls of CustomMemoryPoolImpl of code/util/cust_memory_pool.cc.
use lab_cpp.Base.{ℕ, ◌+◌, [], ◌∷◌, ◌++◌, if◌then◌else◌, ltb, leb, ◌==◌, ◌&&◌, ◌||◌}
use lab_cpp.Base.Int.{pos, ◌-ℤ◌}
use lab_cpp.Base.Status.{success, failure, ok, err}
use lab_cpp.Base.Text.{Text, codes}
use lab_cpp.Base.Decimal.{print_ℕ, print_ℤ}
use lab_cpp.Memory.Platform.{Platform}
use lab_cpp.Memory.Guarded.GuardedMap
use lab_cpp.Memory.Guarded.LinkedSet
use lab_cpp.Memory.Sizes.{huge_alloc_threshold_bytes, small_alloc_threshold_bytes}
use lab_cpp.Memory.Impl.{Build, Impl, Done}
use lab_cpp.Memory.Impl.Runway.{Tried, runway_allocate, runway_reallocate, runway_free}
use lab_cpp.Memory.Impl.PoolAlloc.{pool_allocate, pool_reallocate, pool_free}

module _ (P : Platform) (build : Build) where
  -- `linked_allocs_.add(...)`
  abbrev linked : ℕ → ℕ → ℕ → Impl P → Impl P
  linked old_key new_key value s = record s {
    linked_allocs = LinkedSet.add build.allocation_linking old_key new_key value s.linked_allocs;
  }

  abbrev say : Text → Impl P → Impl P
  say line s = record s { out = s.out ++ line ∷ [] }

  unfoldable pub print_realloc : ℕ → ℕ → ℕ → ℕ → Impl P → Impl P
  print_realloc old_size new_size old_ptr new_ptr s =
      let sizes =
        print_ℤ (pos new_size -ℤ pos old_size)
        ++ codes ","
        ++ print_ℕ new_size
        ++ codes ","
        ++ print_ℕ old_size in
      if build.allocation_printing
      then (if old_ptr == new_ptr
          then say (codes "Reallocate," ++ sizes) s
          else say (codes "ReallocateCopy," ++ sizes)
              (record s { copied_bytes = s.copied_bytes + old_size }))
      else s

  -- `linked_allocs_.add(nullptr, *out, size); return status;`
  abbrev with_link : ℕ → Done P → Done P
  with_link size d = record d { impl = linked 0 d.ptr size d.impl }

  -- The inner pool's own calls, on the state.
  abbrev inner_allocate : ℕ → ℕ → Impl P → Done P
  inner_allocate size out s =
      let a = P.pool_allocate size out s.world in
      record { status = a.status; ptr = a.ptr; impl = record s { world = a.world } }

  abbrev announce_allocate : ℕ → Impl P → Impl P
  announce_allocate size s =
      if build.allocation_printing && ltb 0 size
      then say (codes "Allocate," ++ print_ℕ size ++ codes "," ++ print_ℕ size ++ codes ",0") s
      else s

  unfoldable pub allocate : ℕ → ℕ → Impl P → Done P
  unfolding runway_allocate pool_allocate LinkedSet.add
  allocate size out s =
      let t = announce_allocate size s in
      if build.runway_allocator && leb huge_alloc_threshold_bytes size
      then with_link size (runway_allocate P size t)
      else (if build.pool_allocator && ltb 0 size
          then with_link size (pool_allocate P size out t)
          else with_link size (inner_allocate size out t))

  -- `linked_allocs_.add(...); print_realloc(...); return Status::OK();`
  abbrev finish : ℕ → ℕ → ℕ → ℕ → Impl P → Done P
  unfolding print_realloc
  finish old_size new_size previous_ptr ptr s = record {
    status = success;
    ptr = ptr;
    impl = print_realloc old_size new_size previous_ptr ptr (linked previous_ptr ptr new_size s);
  }

  -- The last lines of `Reallocate`, which forward to the inner pool.
  unfoldable pub reallocate_inner : ℕ → ℕ → ℕ → ℕ → Impl P → Done P
  unfolding print_realloc LinkedSet.add
  reallocate_inner old_size new_size previous_ptr ptr s =
      let a = P.pool_reallocate old_size new_size ptr s.world in
      let t : Impl P = record s { world = a.world } in
      elim a.status [
        | success ↦ finish old_size new_size previous_ptr a.ptr t
        | failure c m ↦ record { status = failure c m; ptr = a.ptr; impl = t }
      ]

  -- RETURN_NOT_OK, then the end of the call if the allocation is made, then the next attempt.
  abbrev or_else : ℕ → ℕ → ℕ → Tried P → Done P → Done P
  or_else old_size new_size previous_ptr t next = elim t.result [
    | err c m ↦ record { status = failure c m; ptr = t.ptr; impl = t.impl }
    | ok done ↦ if done then finish old_size new_size previous_ptr t.ptr t.impl else next
  ]

  unfoldable pub reallocate_pooled : ℕ → ℕ → ℕ → ℕ → Impl P → Done P
  unfolding reallocate_inner pool_reallocate print_realloc LinkedSet.add
  reallocate_pooled old_size new_size previous_ptr ptr s =
      let t = pool_reallocate P old_size new_size ptr s in
      if build.pool_allocator && ltb 0 new_size
      then or_else old_size new_size previous_ptr t
          (reallocate_inner old_size new_size previous_ptr t.ptr t.impl)
      else reallocate_inner old_size new_size previous_ptr ptr s

  unfoldable pub reallocate : ℕ → ℕ → ℕ → Impl P → Done P
  unfolding reallocate_pooled runway_reallocate print_realloc LinkedSet.add
  reallocate old_size new_size ptr s =
      let t = runway_reallocate P old_size new_size ptr s in
      if build.runway_allocator
        && (leb small_alloc_threshold_bytes old_size || leb huge_alloc_threshold_bytes new_size)
      then or_else old_size new_size ptr t (reallocate_pooled old_size new_size ptr t.ptr t.impl)
      else reallocate_pooled old_size new_size ptr ptr s

  abbrev announce_free : ℕ → Impl P → Impl P
  announce_free size s =
      if build.allocation_printing && ltb 0 size
      then say (codes "Free," ++ print_ℤ (pos 0 -ℤ pos size) ++ codes ",0," ++ print_ℕ size) s
      else s

  unfoldable pub free : ℕ → ℕ → Impl P → Impl P
  unfolding runway_free pool_free
  free buffer size s =
      let t = announce_free size s in
      if build.runway_allocator && leb small_alloc_threshold_bytes size
      then runway_free P buffer size t
      else (if build.pool_allocator && ltb 0 size
          then pool_free P buffer size t
          else record t { world = P.pool_free buffer size t.world })

  -- `bytes_allocated`, which prints the chains on its way.
  unfoldable pub bytes_allocated : Impl P → ℕ × Impl P
  unfolding GuardedMap.sum LinkedSet.print
  bytes_allocated s = (
    P.pool_bytes_allocated s.world + GuardedMap.sum s.large_allocs,
    record s { out = s.out ++ LinkedSet.print build.allocation_linking s.linked_allocs },
  )

  unfoldable pub copied_bytes : Impl P → ℕ
  copied_bytes s = s.copied_bytes

  unfoldable pub backend_name : Impl P → Text
  backend_name s = P.pool_backend_name ++ codes "_custom"
