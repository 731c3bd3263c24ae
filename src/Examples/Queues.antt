-- ===== src/Examples/Queues.antt =====
-- Runs of the pool of code/util/async_queue.h.
use lab_cpp.Base.{ℕ, ◌+◌, ◌≡◌, Option-cases, none, some, inl, inr, List, [], ◌∷◌, ◌++◌, map, weigh}
use lab_cpp.Base.Threads.{sum_below}
use lab_cpp.Async.Queue.{Queue, Action, push_request, work_on, construct, next, Reach, start, later}
use lab_cpp.Async.Conservation.{promised, carried, held, responses_conserved}
use lab_cpp.Async.Order.{in_hand, in_pop, responses_ordered}

abbrev answer : ℕ → ℕ
answer r = r + 100

-- The state after a list of actions; the first that is not possible ends it.
unfoldable after : ℕ → List (Action ℕ) → Queue ℕ ℕ → Queue ℕ ℕ
unfolding next
after n [] q = q
after n (a ∷ actions) q = elim (next answer n a q) [ none ↦ q | some r ↦ after n actions r ]

replay :
    (n : ℕ) (actions : List (Action ℕ)) (q : Queue ℕ ℕ)
    → Reach answer n q
    → Reach answer n (after n actions q)
unfolding after
replay n [] q reach = reach
replay n (a ∷ actions) q reach = elim (Option-cases (next answer n a q)) [
  | inl e ↦ rw (e, after) reach
  | inr (r, e) ↦ rw (e, after) (replay n actions r (later reach a e))
]

abbrev at : ℕ → List (Action ℕ) → Queue ℕ ℕ
at n actions = after n actions (construct answer)

reached : (n : ℕ) (actions : List (Action ℕ)) → Reach answer n (at n actions)
reached n actions = replay n actions (construct answer) start

-- Two requests, of which the first has been answered and announced, and the second is running.
abbrev busy : List (Action ℕ)
busy = push_request 1 ∷ push_request 2 ∷ work_on 0 ∷ work_on 1 ∷ work_on 0 ∷ work_on 0 ∷ []

responses_conserved_example :
    weigh (promised answer (λ r. r) 2) (at 2 busy).pushed
    ≡ weigh (promised answer (λ r. r) 2) (at 2 busy).request_queue
      + sum_below (carried answer (λ r. r) 2) 2 (at 2 busy).workers
      + weigh (λ r. r) (at 2 busy).resp_queue
      + held answer (λ r. r) 2 (at 2 busy).popping
      + weigh (λ r. r) (at 2 busy).popped
responses_conserved_example = responses_conserved answer (λ r. r) 2 (reached 2 busy)

responses_ordered_example :
    (at 1 busy).popped
      ++ in_pop answer (at 1 busy).popping
      ++ (at 1 busy).resp_queue
      ++ map answer (in_hand answer ((at 1 busy).workers 0) ++ (at 1 busy).request_queue)
    ≡ map answer (at 1 busy).pushed
responses_ordered_example = responses_ordered answer (reached 1 busy)
