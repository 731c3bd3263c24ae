-- ===== src/Async/Queue.antt =====
-- class AsyncQueue of code/util/async_queue.h, with its Synchronizer. A request is its closure, and
-- `answer` is what the closure returns. Waiting on a condition variable is being blocked until the
-- predicate holds.
use lab_cpp.Base.{
  ℕ, ◌≡◌, Bool, true, false, Option, none, some, List, [], ◌∷◌, ◌++◌, length, if◌then◌else◌, ltb,
}
use lab_cpp.Base.Int.{ℤ, pos}
use lab_cpp.Base.Threads.{move}
use lab_cpp.Async.Synchronizer

-- Where a worker stands: before or in `request_cv_.wait`, running a request, between the push of
-- its response and `notify`, or returned.
pub data Worker (Req : Type 0) : Type 0 where
  waiting : Worker Req
  running : Req → Worker Req
  notifying : Worker Req
  stopped : Worker Req

-- `popping` holds the responses that a call of PopResponses has taken out, until it has told the
-- Synchronizer; the call holds `resp_queue_mutex_` as long. `pushed` and `popped` record what has
-- gone in and come out.
pub record Queue (Req Resp : Type 0) : Type 0 where
  pub request_queue : List Req
  pub resp_queue : List Resp
  pub work : ℤ
  pub stop : Bool
  pub workers : ℕ → Worker Req
  pub popping : Option (List Resp)
  pub pushed : List Req
  pub popped : List Resp

pub data Action (Req : Type 0) : Type 0 where
  push_request : Req → Action Req
  work_on : (worker : ℕ) → Action Req
  pop_responses : Action Req
  consume_responses : Action Req
  destroy : Action Req

module _ {Req Resp : Type 0} (answer : Req → Resp) where
  -- The constructor; which worker numbers exist is said by `pool_size` in `next`.
  unfoldable pub construct : Queue Req Resp
  construct = record {
    request_queue = [];
    resp_queue = [];
    work = pos 0;
    stop = false;
    workers = λ _. waiting;
    popping = none;
    pushed = [];
    popped = [];
  }

  -- PushRequest; nothing is pushed where it throws "Queue stopped".
  unfoldable pub push : Req → Queue Req Resp → Option (Queue Req Resp)
  push request q =
      if q.stop
      then none
      else some (record q {
        request_queue = q.request_queue ++ request ∷ [];
        pushed = q.pushed ++ request ∷ [];
      })

  -- The block under the lock of a worker's loop: go on waiting, return, or take the front.
  unfoldable pub fetch : ℕ → Bool → List Req → Queue Req Resp → Option (Queue Req Resp)
  fetch i false [] q = none
  fetch i true [] q = some (record q { workers = move i stopped q.workers })
  fetch i stop (task ∷ rest) q =
      some (record q { request_queue = rest; workers = move i (running task) q.workers })

  -- The end of a task: its response goes into the queue, under the lock of the responses.
  unfoldable pub respond : ℕ → Req → Option (List Resp) → Queue Req Resp → Option (Queue Req Resp)
  respond i request (some taken) q = none
  respond i request none q = some (record q {
    resp_queue = q.resp_queue ++ answer request ∷ [];
    workers = move i notifying q.workers;
  })

  -- One step of worker `i`; none where it is blocked or has returned.
  unfoldable pub turn : ℕ → Worker Req → Queue Req Resp → Option (Queue Req Resp)
  unfolding fetch respond Synchronizer.notify
  turn i waiting q = fetch i q.stop q.request_queue q
  turn i (running request) q = respond i request q.popping q
  turn i notifying q =
      some (record q { work = Synchronizer.notify q.work; workers = move i waiting q.workers })
  turn i stopped q = none

  -- PopResponses: the loop that empties the queue, and then `consume`.
  unfoldable pub pop : Option (List Resp) → Queue Req Resp → Option (Queue Req Resp)
  pop (some taken) q = none
  pop none q = some (record q { resp_queue = []; popping = some q.resp_queue })

  unfoldable pub consume : Option (List Resp) → Queue Req Resp → Option (Queue Req Resp)
  unfolding Synchronizer.consume
  consume none q = none
  consume (some taken) q = some (record q {
    work = Synchronizer.consume (length taken) q.work;
    popping = none;
    popped = q.popped ++ taken;
  })

  -- What an action of the program does in a pool of `pool_size` workers.
  unfoldable pub next : ℕ → Action Req → Queue Req Resp → Option (Queue Req Resp)
  unfolding push turn pop consume
  next pool_size (push_request request) q = push request q
  next pool_size (work_on i) q = if ltb i pool_size then turn i (q.workers i) q else none
  next pool_size pop_responses q = pop q.popping q
  next pool_size consume_responses q = consume q.popping q
  next pool_size destroy q = some (record q { stop = true })

  -- The states of a pool that some interleaving of its threads reaches.
  pub data Reach (pool_size : ℕ) : Queue Req Resp → Type 0 where
    start : Reach pool_size construct
    later :
        {q r : Queue Req Resp}
        → Reach pool_size q
        → (a : Action Req) → next pool_size a q ≡ some r
        → Reach pool_size r
