-- ===== src/Memory/Facade.antt =====
-- class CustomMemoryPool of code/util/cust_memory_pool.h: arrow's interface of a memory pool, and the
-- forwarding of each of its calls to CustomMemoryPoolImpl.
use lab_cpp.Base.{ℕ}
use lab_cpp.Base.Status.{Status, Outcome, throws, thrown_text}
use lab_cpp.Base.Text.{Text, codes}
use lab_cpp.Memory.Platform.{Platform}
use lab_cpp.Memory.Impl.{Build, Impl}
use lab_cpp.Memory.Impl.Calls.{
  allocate, reallocate, free, bytes_allocated, copied_bytes, backend_name,
}

-- What a call with an `uint8_t**` argument leaves.
pub record Answer (State : Type 0) : Type 0 where
  pub status : Status
  pub ptr : ℕ
  pub state : State

-- arrow::MemoryPool, and `copied_bytes`, which CustomMemoryPool adds to it.
pub record MemoryPool : Type 1 where
  pub State : Type 0
  pub pool_allocate : (size out : ℕ) → State → Answer State
  pub pool_reallocate : (old_size new_size ptr : ℕ) → State → Answer State
  pub pool_free : (buffer size : ℕ) → State → State
  pub pool_bytes_allocated : State → ℕ × State
  pub pool_max_memory : State → Outcome ℕ
  pub pool_copied_bytes : State → ℕ
  pub pool_backend_name : State → Text

module _ (P : Platform) (build : Build) where
  -- CustomMemoryPoolImpl::max_memory throws its text.
  unfoldable pub max_memory : Impl P → Outcome ℕ
  max_memory s = throws (thrown_text (codes "Not implemented yet."))

  unfoldable pub custom_memory_pool : MemoryPool
  unfolding allocate reallocate free bytes_allocated max_memory copied_bytes backend_name
  custom_memory_pool = record {
    State = Impl P;
    pool_allocate = λ size out s.
        let d = allocate P build size out s in
        record { status = d.status; ptr = d.ptr; state = d.impl };
    pool_reallocate = λ old_size new_size ptr s.
        let d = reallocate P build old_size new_size ptr s in
        record { status = d.status; ptr = d.ptr; state = d.impl };
    pool_free = λ buffer size s. free P build buffer size s;
    pool_bytes_allocated = λ s. bytes_allocated P build s;
    pool_max_memory = λ s. max_memory s;
    pool_copied_bytes = λ s. copied_bytes P build s;
    pool_backend_name = λ s. backend_name P build s;
  }
