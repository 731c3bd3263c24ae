-- ===== src/Async/Work.antt =====
-- What each action of a pool and of its caller uses up and keeps (code/util/async_queue.h).
use lab_cpp.Base.{
  ◌++◌, ℕ, ◌+◌, ◌*◌, ◌<◌, ◌≡◌, refl, Bool, true, false, inl, inr, Option, none, some, List, [], ◌∷◌,
  length, length-append, arith, Option-cases,
}
use lab_cpp.Base.Threads.{sum_below, sum_below-move}
use lab_cpp.Async.Queue.{
  Worker, waiting, running, notifying, stopped, Queue, Action, push_request, work_on, pop_responses,
  consume_responses, construct, push, turn, fetch, respond, pop, consume, next, Reach, start,
}
use lab_cpp.Async.Queue
use lab_cpp.Async.Shutdown.{stopped_drained}

-- What a worker has still to do, in steps.
abbrev pub owed : {Req : Type 0} → Worker Req → ℕ
owed waiting = 0
owed (running request) = 4
owed notifying = 1
owed stopped = 0

abbrev pub in_call : {Resp : Type 0} → Option (List Resp) → ℕ
in_call none = 0
in_call (some taken) = 1

module _ {Req Resp : Type 0} (answer : Req → Resp) (n : ℕ) where
  abbrev pub queue_work : Queue Req Resp → ℕ
  queue_work q =
      5 * length q.request_queue
      + sum_below owed n q.workers
      + 2 * length q.resp_queue
      + in_call q.popping

  pub fetch-work :
      (i : ℕ) (stop : Bool) (reqs : List Req) (q r : Queue Req Resp)
      → i < n
      → q.workers i ≡ waiting
      → q.stop ≡ false
      → q.stop ≡ stop
      → q.request_queue ≡ reqs
      → fetch answer i stop reqs q ≡ some r
      → queue_work r < queue_work q
  unfolding fetch
  fetch-work i false [] q r h e z s k t = cc
  fetch-work i true reqs q r h e z s k t = cc
  fetch-work i false (task ∷ rest) q r h e z s k t =
      ground (arith, sum_below-move owed n i (running task) q.workers)

  pub respond-work :
      (i : ℕ) (request : Req) (p : Option (List Resp)) (q r : Queue Req Resp)
      → i < n
      → q.workers i ≡ running request
      → respond answer i request p q ≡ some r
      → queue_work r < queue_work q
  unfolding respond
  respond-work i request (some rs) q r h e t = cc
  respond-work i request none q r h e t = ground (
    arith,
    sum_below-move owed n i notifying q.workers,
    length-append q.resp_queue (answer request ∷ []),
  )

  pub turn-work :
      (i : ℕ) (u : Worker Req) (q r : Queue Req Resp)
      → i < n
      → q.workers i ≡ u
      → q.stop ≡ false
      → turn answer i u q ≡ some r
      → queue_work r < queue_work q
  unfolding turn
  turn-work i waiting q r h e s t = fetch-work i q.stop q.request_queue q r h e s refl refl t
  turn-work i (running request) q r h e s t = respond-work i request q.popping q r h e t
  turn-work i notifying q r h e s t = ground (arith, sum_below-move owed n i waiting q.workers)
  turn-work i stopped q r h e s t = cc

  pub consume-work :
      (taken : List Resp) (q r : Queue Req Resp)
      → q.popping ≡ some taken
      → consume answer (some taken) q ≡ some r
      → (queue_work r < queue_work q)
        × (r.stop ≡ q.stop)
        × (length r.popped ≡ length q.popped + length taken)
        × (r.pushed ≡ q.pushed)
  unfolding consume
  consume-work taken q r p e = ground (arith, length-append q.popped taken)

  pub push-work :
      (request : Req) (q r : Queue Req Resp)
      → push answer request q ≡ some r
      → (queue_work r < queue_work q + 6)
        × (r.stop ≡ q.stop)
        × (r.popped ≡ q.popped)
        × (r.pushed ≡ q.pushed ++ request ∷ [])
  unfolding push
  push-work request q r e =
      ground
        (arith, length-append q.request_queue (request ∷ []), length-append q.pushed (request ∷ []))

  pub pop-work :
      (q r : Queue Req Resp)
      → q.popping ≡ none
      → 0 < length q.resp_queue
      → pop answer none q ≡ some r
      → (queue_work r < queue_work q)
        × (r.stop ≡ q.stop)
        × (r.popped ≡ q.popped)
        × (r.pushed ≡ q.pushed)
  unfolding pop
  pop-work q r p l e = ground arith

  pub fetch-keeps :
      (i : ℕ) (stop : Bool) (reqs : List Req) (q r : Queue Req Resp)
      → fetch answer i stop reqs q ≡ some r
      → (r.stop ≡ q.stop) × (r.popped ≡ q.popped) × (r.pushed ≡ q.pushed) × (r.popping ≡ q.popping)
  unfolding fetch
  fetch-keeps i false [] q r e = cc
  fetch-keeps i true [] q r e = ground arith
  fetch-keeps i stop (task ∷ rest) q r e = ground arith

  pub turn-keeps :
      (i : ℕ) (u : Worker Req) (q r : Queue Req Resp)
      → turn answer i u q ≡ some r
      → (r.stop ≡ q.stop) × (r.popped ≡ q.popped) × (r.pushed ≡ q.pushed) × (r.popping ≡ q.popping)
  unfolding turn respond
  turn-keeps i waiting q r e = fetch-keeps i q.stop q.request_queue q r e
  turn-keeps i (running request) q r e = elim (Option-cases q.popping) [
    | inl p ↦ ground arith
    | inr (taken, p) ↦ ground arith
  ]
  turn-keeps i notifying q r e = ground arith
  turn-keeps i stopped q r e = cc

  pub worker-turn :
      (i : ℕ) (q r : Queue Req Resp)
      → next answer n (work_on i) q ≡ some r
      → (i < n) × (turn answer i (q.workers i) q ≡ some r)
  unfolding next
  worker-turn i q r e = ground arith

  pub consume-Reach :
      (taken : List Resp) (q r : Queue Req Resp)
      → Reach answer n q
      → q.popping ≡ some taken
      → consume answer (some taken) q ≡ some r
      → Reach answer n r
  unfolding next
  consume-Reach taken q r h p e = Queue.later h consume_responses (rw p e)

  pub pop-Reach :
      (q r : Queue Req Resp)
      → Reach answer n q
      → q.popping ≡ none
      → pop answer none q ≡ some r
      → Reach answer n r
  unfolding next
  pop-Reach q r h p e = Queue.later h pop_responses (rw p e)

  pub push-Reach :
      (request : Req) (q r : Queue Req Resp)
      → Reach answer n q
      → push answer request q ≡ some r
      → Reach answer n r
  unfolding next
  push-Reach request q r h e = Queue.later h (push_request request) e

  -- A worker that can do nothing, while no call of PopResponses is under way, waits for requests.
  pub fetch-idle :
      (i : ℕ) (stop : Bool) (reqs : List Req) (q : Queue Req Resp)
      → stop ≡ false
      → fetch answer i stop reqs q ≡ none
      → reqs ≡ []
  unfolding fetch
  fetch-idle i stop [] q s e = refl
  fetch-idle i stop (task ∷ rest) q s e = cc

  pub turn-idle :
      (i : ℕ) (u : Worker Req) (q : Queue Req Resp)
      → Reach answer n q
      → q.workers i ≡ u
      → q.stop ≡ false
      → q.popping ≡ none
      → turn answer i u q ≡ none
      → (u ≡ waiting) × (q.request_queue ≡ [])
  unfolding turn respond
  turn-idle i waiting q h e s p t = (refl, fetch-idle i q.stop q.request_queue q s t)
  turn-idle i (running request) q h e s p t = ground arith
  turn-idle i notifying q h e s p t = cc
  turn-idle i stopped q h e s p t = ground (arith, stopped_drained answer n h i e)
