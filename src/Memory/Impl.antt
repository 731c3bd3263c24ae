-- ===== src/Memory/Impl.antt =====
-- The state of CustomMemoryPool::CustomMemoryPoolImpl of code/util/cust_memory_pool.cc, and its
-- constructor. The macros ACTIVATE_... of the header are the fields of `Build`.
pub mod Runway
pub mod PoolAlloc
pub mod Calls
pub mod Maps
pub mod Faults
pub mod Preallocated
pub mod Resize
pub mod Routes
pub mod Accounting
pub mod Invariant
use lab_cpp.Base.{ℕ, zero, suc, Bool, List, [], ◌∷◌, ◌++◌, if◌then◌else◌}
use lab_cpp.Base.StdMap.{StdMap}
use lab_cpp.Base.Status.{Status}
use lab_cpp.Base.Text.{Text, codes}
use lab_cpp.Memory.Platform.{Platform}
use lab_cpp.Memory.Guarded.GuardedQueue
use lab_cpp.Memory.Guarded.LinkedSet.{Node}
use lab_cpp.Memory.Sizes.{prealloc_size_bytes, prealloc_count}

pub record Build : Type 0 where
  pub runway_allocator : Bool
  pub pool_allocator : Bool
  pub allocation_linking : Bool
  pub allocation_printing : Bool

-- `out` is what has been written to std::cout, a line each.
pub record Impl (P : Platform) : Type 0 where
  pub world : P.World
  pub copied_bytes : ℕ
  pub large_allocs : StdMap ℕ ℕ
  pub linked_allocs : List (List Node)
  pub pool_allocs : List ℕ
  pub out : List Text

-- What a call with an `uint8_t**` argument leaves: its status, the pointer and the state.
pub record Done (P : Platform) : Type 0 where
  pub status : Status
  pub ptr : ℕ
  pub impl : Impl P

abbrev pub on_off : Bool → Text
on_off b = if b then codes "ON" else codes "OFF"

module _ (P : Platform) where
  -- The loop of the constructor under ACTIVATE_POOL_ALLOCATOR, by the rounds left.
  unfoldable pub preallocate : ℕ → Impl P → Impl P
  unfolding GuardedQueue.push
  preallocate zero s = s
  preallocate (suc rounds) s =
      let (raw_ptr, w) = P.mmap prealloc_size_bytes s.world in
      preallocate rounds (record s {
        world = P.memset raw_ptr 1 prealloc_size_bytes w;
        pool_allocs = GuardedQueue.push raw_ptr s.pool_allocs;
      })

  -- The state before the first line of the constructor. The code leaves `copied_bytes_`
  -- uninitialised: its first value is an argument.
  abbrev pub blank : ℕ → P.World → Impl P
  blank garbage w = record {
    world = w;
    copied_bytes = garbage;
    large_allocs = [];
    linked_allocs = [];
    pool_allocs = [];
    out = [];
  }

  unfoldable pub construct : Build → ℕ → P.World → Impl P
  construct build garbage w =
      let s = blank garbage w in
      let t = if build.pool_allocator then preallocate prealloc_count s else s in
      record t {
        out =
            (codes "ACTIVATE_ALLOCATION_LINKING = " ++ on_off build.allocation_linking)
            ∷ (codes "ACTIVATE_RUNWAY_ALLOCATOR = " ++ on_off build.runway_allocator)
            ∷ (codes "ACTIVATE_POOL_ALLOCATOR = " ++ on_off build.pool_allocator)
            ∷ [];
      }
