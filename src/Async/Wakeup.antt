-- ===== src/Async/Wakeup.antt =====
-- The condition variable `request_cv_` of code/util/async_queue.h: Async/Queue has a worker wait until its
-- predicate holds; here it tests it under the lock, sleeps, and is woken, as the calls of `notify_one`
-- and `notify_all` and the system have it.
pub mod Roused
pub mod Steps
pub mod Awake
use lab_cpp.Base.{
  ℕ, ◌+◌, ◌-◌, ◌≡◌, Bool, true, false, ◌&&◌, Option, none, some, if◌then◌else◌, ltb, ◌==◌,
}
use lab_cpp.Base.Threads.{move, sum_below}
use lab_cpp.Async.Queue.{Worker, waiting, Queue, construct}
use lab_cpp.Async.Queue

-- Where a worker stands that has no request: before its test of the predicate, asleep in `wait`, or woken
-- in it. A worker with a request is `up`.
pub data Stand : Type 0 where
  up asleep woken : Stand

abbrev pub is_asleep : Stand → ℕ
is_asleep asleep = 1
is_asleep _ = 0

abbrev pub is_woken : Stand → ℕ
is_woken woken = 1
is_woken _ = 0

-- The pool with its sleepers. `notifications` are the calls of PushRequest that have still to call
-- `notify_one`; `stopping` says that the destructor has still to call `notify_all`.
pub record Threads (Req Resp : Type 0) : Type 0 where
  pub queue : Queue Req Resp
  pub stands : ℕ → Stand
  pub notifications : ℕ
  pub stopping : Bool

pub data Signal (Req : Type 0) : Type 0 where
  push_request : Req → Signal Req
  notify_one : (worker : ℕ) → Signal Req
  notify_nobody : Signal Req
  work_on : (worker : ℕ) → Signal Req
  wake_up : (worker : ℕ) → Signal Req
  pop_responses consume_responses : Signal Req
  destroy notify_all : Signal Req

abbrev pub rouse : Stand → Stand
rouse asleep = woken
rouse s = s

module _ {Req Resp : Type 0} (answer : Req → Resp) (pool_size : ℕ) where
  unfoldable pub all_up : Threads Req Resp
  unfolding construct
  all_up = record {
    queue = construct answer;
    stands = λ _. up;
    notifications = 0;
    stopping = false;
  }

  abbrev pub over_queue : Threads Req Resp → Option (Queue Req Resp) → Option (Threads Req Resp)
  over_queue s none = none
  over_queue s (some q) = some (record s { queue = q })

  -- PushRequest, up to its unlock.
  unfoldable pub push_to : Option (Queue Req Resp) → Threads Req Resp → Option (Threads Req Resp)
  push_to none s = none
  push_to (some q) s = some (record s { queue = q; notifications = s.notifications + 1 })

  -- The test of the predicate: the worker goes on, or it sleeps.
  unfoldable pub look : ℕ → Option (Queue Req Resp) → Threads Req Resp → Threads Req Resp
  look i (some q) s = record s { queue = q; stands = move i up s.stands }
  look i none s = record s { stands = move i asleep s.stands }

  unfoldable pub work_at : ℕ → Stand → Worker Req → Threads Req Resp → Option (Threads Req Resp)
  unfolding look Queue.next
  work_at i asleep w s = none
  work_at i stand waiting s =
      some (look i (Queue.next answer pool_size (Queue.work_on i) s.queue) s)
  work_at i stand w s = over_queue s (Queue.next answer pool_size (Queue.work_on i) s.queue)

  -- `notify_one` wakes one sleeper, if there is one.
  unfoldable pub notify_at : ℕ → Stand → Threads Req Resp → Option (Threads Req Resp)
  notify_at i asleep s =
      if ltb 0 s.notifications
      then some (record s { notifications = s.notifications - 1; stands = move i woken s.stands })
      else none
  notify_at i _ s = none

  -- A spurious wake-up.
  unfoldable pub wake_at : ℕ → Stand → Threads Req Resp → Option (Threads Req Resp)
  wake_at i asleep s = some (record s { stands = move i woken s.stands })
  wake_at i _ s = none

  unfoldable pub next : Signal Req → Threads Req Resp → Option (Threads Req Resp)
  unfolding push_to work_at notify_at wake_at Queue.next
  next (push_request r) s = push_to (Queue.next answer pool_size (Queue.push_request r) s.queue) s
  next (notify_one i) s = if ltb i pool_size then notify_at i (s.stands i) s else none
  next notify_nobody s =
      if ltb 0 s.notifications && (sum_below is_asleep pool_size s.stands == 0)
      then some (record s { notifications = s.notifications - 1 })
      else none
  next (work_on i) s =
      if ltb i pool_size then work_at i (s.stands i) (s.queue.workers i) s else none
  next (wake_up i) s = if ltb i pool_size then wake_at i (s.stands i) s else none
  next pop_responses s = over_queue s (Queue.next answer pool_size Queue.pop_responses s.queue)
  next consume_responses s =
      over_queue s (Queue.next answer pool_size Queue.consume_responses s.queue)
  next destroy s = some (record s { queue = record s.queue { stop = true }; stopping = true })
  next notify_all s =
      if s.stopping
      then some (record s { stands = λ i. rouse (s.stands i); stopping = false })
      else none

  pub data Reach : Threads Req Resp → Type 0 where
    start : Reach all_up
    later : {s t : Threads Req Resp} → Reach s → (a : Signal Req) → next a s ≡ some t → Reach t
