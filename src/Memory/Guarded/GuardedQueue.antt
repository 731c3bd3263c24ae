-- ===== src/Memory/Guarded/GuardedQueue.antt =====
-- class guarded_queue of code/util/cust_memory_pool.cc, the front first.
use lab_cpp.Base.{ℕ, List, [], ◌∷◌, ◌++◌}

-- nullptr is the answer of an empty queue.
unfoldable pub pop : List ℕ → ℕ × List ℕ
pop [] = (0, [])
pop (front ∷ queue) = (front, queue)

unfoldable pub push : ℕ → List ℕ → List ℕ
push key queue = queue ++ key ∷ []
