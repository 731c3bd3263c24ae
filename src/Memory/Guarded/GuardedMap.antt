-- ===== src/Memory/Guarded/GuardedMap.antt =====
-- class guarded_map of code/util/cust_memory_pool.cc: sizes by address.
use lab_cpp.Base.{ℕ, ◌≡◌, Bool, true, false, none, some, arith}
use lab_cpp.Base.Key.{nat_key}
use lab_cpp.Base.StdMap
use lab_cpp.Base.StdMap.{StdMap}
use lab_cpp.Base.StdMap.Laws.{total}

unfoldable pub set : ℕ → ℕ → StdMap ℕ ℕ → StdMap ℕ ℕ
set key value map = StdMap.set key value map

unfoldable pub contains : ℕ → StdMap ℕ ℕ → Bool
contains key map = elim (StdMap.find key map) [ none ↦ false | some _ ↦ true ]

-- The map without the key, and whether the key was there.
unfoldable pub erase : ℕ → StdMap ℕ ℕ → Bool × StdMap ℕ ℕ
unfolding contains
erase key map = (contains key map, StdMap.erase key map)

unfoldable pub sum : StdMap ℕ ℕ → ℕ
sum map = total (λ size. size) map

pub contains_of_some :
    (key value : ℕ) (map : StdMap ℕ ℕ) → StdMap.find key map ≡ some value → contains key map ≡ true
unfolding contains
contains_of_some key value map e = ground arith

pub contains_of_none :
    (key : ℕ) (map : StdMap ℕ ℕ) → StdMap.find key map ≡ none → contains key map ≡ false
unfolding contains
contains_of_none key map e = ground arith
