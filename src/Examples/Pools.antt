-- ===== src/Examples/Pools.antt =====
-- The memory pool of code/util/cust_memory_pool.cc over a platform that counts.
use lab_cpp.Base.{
  ℕ, ◌+◌, ◌-◌, ◌*◌, ◌^◌, ◌%◌, ◌≤◌, ◌<◌, ◌≡◌, refl, true, false, some, inl, [], ◌∷◌, if◌then◌else◌,
  leb, ltb, arith,
}
use lab_cpp.Base.Key.{nat_key}
use lab_cpp.Base.Status.{success, failure, execution_error, out_of_memory}
use lab_cpp.Base.StdMap.{find, set, place}
use lab_cpp.Base.Text.{codes}
use lab_cpp.Memory.Platform.{Platform, Accounts}
use lab_cpp.Memory.Sizes.{whole_page_size, page_size, whole_page_size_bounds}
use lab_cpp.Memory.Impl.{Build, Impl, construct}
use lab_cpp.Memory.Impl.Calls.{allocate, reallocate, free}
use lab_cpp.Memory.Impl.Invariant.{IsManaged, allocates, reallocates, run, run-IsManaged}
use lab_cpp.Memory.Impl.Accounting
use lab_cpp.Memory.Impl.Accounting.{allocate-held, free-held}
use lab_cpp.Memory.Impl.Resize.{Sound, reallocate-held}
use lab_cpp.Memory.Impl.Preallocated.{
  Users, begin, later, takes, use_pool, count, buffers_conserved,
}
use lab_cpp.Memory.Impl.Faults.{shrink_within_page_fails}

-- The world is the number of bytes that the inner pool holds, and the next free address.
abbrev counting : Platform
counting = record {
  World = ℕ × ℕ;
  pool_allocate = λ size ptr w. record { status = success; ptr = 4096; world = (w.0 + size, w.1) };
  pool_reallocate = λ old_size new_size ptr w. record {
    status = if leb old_size w.0 then success else failure out_of_memory (codes "");
    ptr = ptr;
    world = (w.0 + new_size - old_size, w.1);
  };
  pool_free = λ ptr size w. (w.0 - size, w.1);
  pool_bytes_allocated = λ w. w.0;
  pool_backend_name = codes "system";
  mmap = λ n w. (w.1, (w.0, w.1 + n));
  munmap = λ a n w. w;
  madvise = λ a n w. (if ltb (2 ^ 64 - page_size) n then 22 else 0, w);
  memcpy = λ d s n w. w;
  memset = λ a c n w. w;
}

counting-Accounts : Accounts counting
counting-Accounts = record {
  allocated = λ size ptr w h. refl;
  reallocated = λ old_size new_size ptr w h. ground arith;
  freed = λ ptr size w h. ground arith;
  mapped = λ n w. refl;
  unmapped = λ a n w. refl;
  advised = λ a n w. refl;
  copied = λ d s n w. refl;
}

abbrev runways : Build
runways = record {
  runway_allocator = true;
  pool_allocator = false;
  allocation_linking = true;
  allocation_printing = true;
}

abbrev start : ℕ × ℕ
start = (1000, 1024 * 1024)

-- A new pool, and one with a buffer of 2 MB on a runway, and 1000 bytes in the inner pool.
abbrev fresh : Impl counting
fresh = construct counting runways 0 start

abbrev filled : Impl counting
filled = (allocate counting runways 2097152 0 fresh).impl

abbrev address : ℕ
address = 1024 * 1024

run-IsManaged_example :
    IsManaged
      (run counting runways
        (allocates 2097152 0 ∷ reallocates 2097152 100 address ∷ [])
        (construct counting runways 0 start)).large_allocs
run-IsManaged_example =
    run-IsManaged counting runways 0 start
      (allocates 2097152 0 ∷ reallocates 2097152 100 address ∷ [])

filled-IsManaged : IsManaged filled.large_allocs
unfolding run
filled-IsManaged = run-IsManaged counting runways 0 start (allocates 2097152 0 ∷ [])

allocate-held_example :
    Accounting.held counting runways refl (allocate counting runways 2097152 0 fresh).impl
    ≡ Accounting.held counting runways refl fresh + 2097152
unfolding construct find allocate
allocate-held_example =
    allocate-held counting runways refl 2097152 0 fresh counting-Accounts refl refl

free-held_example :
    Accounting.held counting runways refl (free counting runways address 2097152 filled) + 2097152
    ≡ Accounting.held counting runways refl filled
unfolding construct find allocate set place
free-held_example =
    free-held counting runways refl address 2097152 filled counting-Accounts refl
      (inl (refl, omega arith))

filled-Sound : Sound counting runways refl 2097152 1048576 address filled
unfolding construct find allocate set place
filled-Sound = record { managed = filled-IsManaged; owner = inl refl; fresh = refl; room = refl }

reallocate-held_example :
    Accounting.held counting runways refl
        (reallocate counting runways 2097152 1048576 address filled).impl
      + 2097152
    ≡ Accounting.held counting runways refl filled + 1048576
unfolding construct find allocate set place reallocate whole_page_size
reallocate-held_example =
    reallocate-held counting runways refl 2097152 1048576 address filled counting-Accounts refl
      filled-Sound refl

abbrev uneven : Impl counting
uneven = (allocate counting runways 1200000 0 fresh).impl

shrink_within_page_fails_example :
    ((reallocate counting runways 1200000 1199999 address uneven).status
      ≡ failure execution_error (codes "MADV_DONTNEED failed"))
    × (find address (reallocate counting runways 1200000 1199999 address uneven).impl.large_allocs
        ≡ some 1199999)
unfolding construct find allocate set place whole_page_size
shrink_within_page_fails_example =
    shrink_within_page_fails counting runways refl 1200000 1199999 address uneven
      (λ a n w h. ground arith) refl (omega arith) (omega arith) (omega arith) (omega arith)

whole_page_size_bounds_example :
    (whole_page_size 5000 % page_size ≡ 0)
    × (5000 ≤ whole_page_size 5000)
    × (whole_page_size 5000 < 5000 + page_size)
whole_page_size_bounds_example = whole_page_size_bounds 5000 (omega arith)

abbrev pooling : Build
pooling = record {
  runway_allocator = false;
  pool_allocator = true;
  allocation_linking = false;
  allocation_printing = true;
}

-- Two preallocated buffers.
abbrev stocked : Impl counting
stocked = record (fresh) { pool_allocs = 4096 ∷ 8192 ∷ [] }

abbrev in_use : Users counting
in_use = record { impl = (allocate counting pooling 10 0 stocked).impl; held = 4096 ∷ [] }

buffers_conserved_example :
    count 4096 in_use.impl.pool_allocs + count 4096 in_use.held ≡ count 4096 (4096 ∷ 8192 ∷ [])
unfolding use_pool construct allocate
buffers_conserved_example =
    buffers_conserved counting pooling refl refl 4096 stocked in_use (λ e. cc)
      (later begin (takes 10 0) refl)
