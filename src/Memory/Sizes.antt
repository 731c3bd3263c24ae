-- ===== src/Memory/Sizes.antt =====
-- The constants of code/util/cust_memory_pool.h and `whole_page_size` of cust_memory_pool.cc.
-- A size_t is a number below 2 ^ 64, and its arithmetic wraps.
use lab_cpp.Base.{ℕ, ◌+◌, ◌-◌, ◌*◌, ◌%◌, ◌^◌, ◌≤◌, ◌<◌, ◌≡◌, arith, if◌then◌else◌, ◌==◌}

abbrev pub huge_alloc_threshold_bytes : ℕ
huge_alloc_threshold_bytes = 1024 * 1024

abbrev pub small_alloc_threshold_bytes : ℕ
small_alloc_threshold_bytes = 256 * 1024

abbrev pub huge_alloc_runway_size_bytes : ℕ
huge_alloc_runway_size_bytes = 1024 * 1024 * 1024

abbrev pub prealloc_size_bytes : ℕ
prealloc_size_bytes = 1024 * 1024

abbrev pub prealloc_count : ℕ
prealloc_count = 1500

abbrev pub page_size : ℕ
page_size = 4 * 1024

-- `a + b` and `a - b` on size_t.
abbrev pub size_add : ℕ → ℕ → ℕ
size_add a b = (a + b) % 2 ^ 64

abbrev pub size_sub : ℕ → ℕ → ℕ
size_sub a b = (a + 2 ^ 64 - b) % 2 ^ 64

unfoldable pub whole_page_size : ℕ → ℕ
whole_page_size raw_size =
    let remainder = raw_size % page_size in
    if remainder == 0 then raw_size else size_sub (size_add raw_size page_size) remainder

-- Where the sum with a page does not wrap, the result is the least number of whole pages that
-- holds the size, in bytes: it is a multiple of the page size, at least the size, and less than a
-- page above it.
pub whole_page_size_bounds :
    (raw : ℕ)
    → raw + page_size ≤ 2 ^ 64
    → (whole_page_size raw % page_size ≡ 0)
      × (raw ≤ whole_page_size raw)
      × (whole_page_size raw < raw + page_size)
unfolding whole_page_size
whole_page_size_bounds raw h = ground arith

-- A size in the last page of the address space wraps to 0.
pub whole_page_size_wraps :
    (raw : ℕ) → raw < 2 ^ 64 → 2 ^ 64 - page_size < raw → whole_page_size raw ≡ 0
unfolding whole_page_size
whole_page_size_wraps raw h k = ground arith
