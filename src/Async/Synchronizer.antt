-- ===== src/Async/Synchronizer.antt =====
-- class Synchronizer of code/util/async_queue.cc. Each method holds the lock for the whole of what
-- it does to the counter, so that it is one step on `work_`, a signed number.
use lab_cpp.Base.{ℕ, Bool}
use lab_cpp.Base.Int.{ℤ, pos, ◌+ℤ◌, ◌-ℤ◌, ltb_ℤ}

unfoldable pub notify : ℤ → ℤ
notify work = work +ℤ pos 1

-- The predicate of `wait`: it returns in a state where this is true.
unfoldable pub wait_returns : ℤ → Bool
wait_returns work = ltb_ℤ (pos 0) work

unfoldable pub consume : ℕ → ℤ → ℤ
consume work_units work = work -ℤ pos work_units
