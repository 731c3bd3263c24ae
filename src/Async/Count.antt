-- ===== src/Async/Count.antt =====
-- The counter of the Synchronizer against the responses of the queue (code/util/async_queue.h).
use lab_cpp.Base.{
  ℕ, ◌+◌, ◌<◌, ◌≡◌, refl, Bool, true, false, Bool-cases, ltb, inl, inr, Option, none, some, List,
  [], ◌∷◌, length, length-append, arith,
}
use lab_cpp.Base.Int.{pos, pos_part, neg_part, +ℤ_parts, -ℤ_parts}
use lab_cpp.Base.Threads.{sum_below, sum_below-move, sum_below-eq-zero}
use lab_cpp.Async.Queue.{
  Worker, waiting, running, notifying, stopped, Queue, Action, push_request, work_on, pop_responses,
  consume_responses, destroy, construct, turn, fetch, respond, pop, consume, next, Reach, start,
  later,
}
use lab_cpp.Async.Synchronizer.{wait_returns}

-- 1 for a worker that has pushed a response and not told the Synchronizer yet.
abbrev pub owes : {Req : Type 0} → Worker Req → ℕ
owes notifying = 1
owes _ = 0

abbrev pub taken : {Resp : Type 0} → Option (List Resp) → ℕ
taken none = 0
taken (some rs) = length rs

module _ {Req Resp : Type 0} (answer : Req → Resp) (n : ℕ) where
  -- `work_` counts the responses that are queued or being popped, but for those that a worker has
  -- still to announce.
  abbrev pub IsCounted : Queue Req Resp → Type 0
  IsCounted q =
      pos_part q.work + sum_below owes n q.workers
      ≡ neg_part q.work + length q.resp_queue + taken q.popping

  fetch-IsCounted :
      (i : ℕ) (stop : Bool) (reqs : List Req) (q r : Queue Req Resp)
      → i < n
      → q.workers i ≡ waiting
      → fetch answer i stop reqs q ≡ some r
      → IsCounted q
      → IsCounted r
  unfolding fetch
  fetch-IsCounted i false [] q r h e t c = cc
  fetch-IsCounted i true [] q r h e t c = ground (arith, sum_below-move owes n i stopped q.workers)
  fetch-IsCounted i stop (task ∷ rest) q r h e t c =
      ground (arith, sum_below-move owes n i (running task) q.workers)

  respond-IsCounted :
      (i : ℕ) (request : Req) (p : Option (List Resp)) (q r : Queue Req Resp)
      → i < n
      → q.workers i ≡ running request
      → respond answer i request p q ≡ some r
      → IsCounted q
      → IsCounted r
  unfolding respond
  respond-IsCounted i request (some rs) q r h e t c = cc
  respond-IsCounted i request none q r h e t c = ground (
    arith,
    sum_below-move owes n i notifying q.workers,
    length-append q.resp_queue (answer request ∷ []),
  )

  turn-IsCounted :
      (i : ℕ) (w : Worker Req) (q r : Queue Req Resp)
      → i < n
      → q.workers i ≡ w
      → turn answer i w q ≡ some r
      → IsCounted q
      → IsCounted r
  unfolding turn
  turn-IsCounted i waiting q r h e t c = fetch-IsCounted i q.stop q.request_queue q r h e t c
  turn-IsCounted i (running request) q r h e t c = respond-IsCounted i request q.popping q r h e t c
  turn-IsCounted i notifying q r h e t c =
      ground (arith, sum_below-move owes n i waiting q.workers, +ℤ_parts q.work (pos 1))
  turn-IsCounted i stopped q r h e t c = cc

  pop-IsCounted :
      (p : Option (List Resp)) (q r : Queue Req Resp)
      → q.popping ≡ p
      → pop answer p q ≡ some r
      → IsCounted q
      → IsCounted r
  unfolding pop
  pop-IsCounted none q r e t c = ground arith
  pop-IsCounted (some rs) q r e t c = cc

  consume-IsCounted :
      (p : Option (List Resp)) (q r : Queue Req Resp)
      → q.popping ≡ p
      → consume answer p q ≡ some r
      → IsCounted q
      → IsCounted r
  unfolding consume
  consume-IsCounted none q r e t c = cc
  consume-IsCounted (some rs) q r e t c = ground (arith, -ℤ_parts q.work (pos (length rs)))

  -- Every action keeps the count.
  next-IsCounted :
      (a : Action Req) (q r : Queue Req Resp)
      → next answer n a q ≡ some r
      → IsCounted q
      → IsCounted r
  unfolding next
  next-IsCounted (push_request request) q r t c = ground arith
  next-IsCounted (work_on i) q r t c = elim (Bool-cases (ltb i n)) [
    | inl h ↦ turn-IsCounted i (q.workers i) q r (ground arith) refl (ground arith) c
    | inr h ↦ ground arith
  ]
  next-IsCounted pop_responses q r t c = pop-IsCounted q.popping q r refl t c
  next-IsCounted consume_responses q r t c = consume-IsCounted q.popping q r refl t c
  next-IsCounted destroy q r t c = ground arith

  pub Reach-IsCounted : {q : Queue Req Resp} → Reach answer n q → IsCounted q
  unfolding construct
  Reach-IsCounted start = rw (sum_below-eq-zero owes n (λ _. waiting) (λ i h. refl)) refl
  Reach-IsCounted (later {q} {r} reach a t) = next-IsCounted a q r t (Reach-IsCounted reach)

  -- In every state that a pool can reach while no call of PopResponses is under way, if `wait`
  -- returns, then there is a response to pop.
  pub wait_returns-queued :
      {q : Queue Req Resp}
      → Reach answer n q
      → q.popping ≡ none
      → wait_returns q.work ≡ true
      → 0 < length q.resp_queue
  unfolding wait_returns
  wait_returns-queued {q} reach e w = let c = Reach-IsCounted reach in ground (arith, c)

  -- In every state that a pool can reach while no call of PopResponses is under way, `wait` returns if
  -- there is a response to pop, once every worker has told the Synchronizer of its responses.
  pub queued-wait_returns :
      {q : Queue Req Resp}
      → Reach answer n q
      → q.popping ≡ none
      → sum_below owes n q.workers ≡ 0
      → 0 < length q.resp_queue
      → wait_returns q.work ≡ true
  unfolding wait_returns
  queued-wait_returns {q} reach e z h = let c = Reach-IsCounted reach in ground (arith, c)
