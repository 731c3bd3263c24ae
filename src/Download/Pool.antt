-- ===== src/Download/Pool.antt =====
-- The whole Downloader of code/aws/downloader.h and downloader.cc at work: one thread calls
-- InitConnections, ScheduleDownload and ProcessResponses, in any order; the workers of its AsyncQueue
-- run the tasks that these calls queue, those of InitConnections over the barrier. downloader.h
-- leaves a second InitConnections undefined while the first is at work; here there is one at most. The barrier is that of
-- Download/Init and the queue that of Async.
pub mod Interrupted
pub mod Tasks
pub mod Serving
pub mod Calls
pub mod Workers
pub mod Ends
pub mod Rest
pub mod Settled
pub mod Returned
use lab_cpp.Base.{
  ℕ, suc, ◌+◌, ◌≡◌, Bool, true, false, Option, none, some, List, [], ◌∷◌, if◌then◌else◌, ltb, ◌==◌,
  weigh,
}
use lab_cpp.Base.Int.{pos}
use lab_cpp.Base.Status.{unknown_error, Result, ok, err}
use lab_cpp.Async.Queue
use lab_cpp.Async.Queue.{
  Worker, running, Queue, push_request, pop_responses, consume_responses, construct,
}
use lab_cpp.Download.Fetch.{DownloadRequest, DownloadResponse, query_aborted}
use lab_cpp.Download.Init
use lab_cpp.Download.Init.{
  Task, aborted, opened, Barrier, start, call_back, time_out, announce, resume, wake_up, finish,
  cancel, notify_cancelled, init_connections,
}

-- The closures in the request queue: a task of InitConnections, by its number, or the download of a
-- range.
pub data Job : Type 0 where
  init_task : ℕ → Job
  get_object : DownloadRequest → Job

-- Where the thread stands that uses the Downloader: in InitConnections, before the push of a task;
-- between its calls; in ScheduleDownload, before `notify_all` or before the push; in ProcessResponses.
pub data Caller : Type 0 where
  initializing : (next_task : ℕ) → Caller
  idle : Caller
  interrupting enqueuing : DownloadRequest → Caller
  processing : Caller

-- A queued response is kept as the job that has given it; `returned` is the response itself.
pub record Service : Type 0 where
  pub client : Caller
  pub barrier : Barrier
  pub queue : Queue Job Job

pub data Action : Type 0 where
  begin_init push_init interrupt enqueue : Action
  schedule : DownloadRequest → Action
  begin_responses end_responses : Action
  work_on : (worker : ℕ) → Action
  advance : (worker : ℕ) → Init.Action → Action

abbrev pub job_of : Job → Job
job_of job = job

-- `DownloadResponse{}`
abbrev pub empty_response : DownloadResponse
empty_response = record {
  request = record {
    range_start = none;
    range_end = pos 0;
    path = record { bucket = []; key = [] };
  };
  raw_data = [];
  file_size = pos 0;
}

abbrev pub returned_init : Task → Result DownloadResponse
returned_init aborted = err unknown_error query_aborted
returned_init _ = ok empty_response

-- What a job returns, by the downloads' results and the state of the tasks; none for an exception, as
-- `std::stoll` has them for a size that it cannot read. Nothing catches it in the pool's thread, so
-- that it ends the program, and this model with it.
unfoldable pub returned :
    (DownloadRequest → Option (Result DownloadResponse))
    → Barrier
    → Job
    → Option (Result DownloadResponse)
returned fetched b (init_task k) = some (returned_init (b.tasks k))
returned fetched b (get_object request) = fetched request

-- Whether an action of Download/Init is one of task `k`.
abbrev pub concerns : ℕ → Init.Action → Bool
concerns k (start i) = k == i
concerns k (call_back i) = k == i
concerns k (time_out i) = k == i
concerns k (announce i) = k == i
concerns k (resume i) = k == i
concerns k (wake_up i) = k == i
concerns k (finish i result) = k == i
concerns k cancel = false
concerns k notify_cancelled = false

abbrev pub has_returned : Task → Bool
has_returned aborted = true
has_returned opened = true
has_returned _ = false

-- Whether a worker is at a step of its own loop, and not inside a task of InitConnections.
abbrev pub at_loop : Worker Job → Barrier → Bool
at_loop (running (init_task k)) b = has_returned (b.tasks k)
at_loop _ b = true

abbrev pub with_barrier : Caller → Queue Job Job → Option Barrier → Option Service
with_barrier client queue none = none
with_barrier client queue (some b) = some (record { client = client; barrier = b; queue = queue })

abbrev pub with_pool : Caller → Barrier → Option (Queue Job Job) → Option Service
with_pool client b none = none
with_pool client b (some queue) = some (record { client = client; barrier = b; queue = queue })

-- `init_counter_` has no value before the first call, and no task that could read it.
abbrev pub created : Service
created = record { client = idle; barrier = init_connections; queue = construct job_of }

-- 1 for a task of InitConnections.
abbrev pub is_init : Job → ℕ
is_init (init_task k) = 1
is_init (get_object request) = 0

-- Whether the last job is a download; `before` is said of the jobs before these.
unfoldable pub ends_download : (before : Bool) → List Job → Bool
ends_download before [] = before
ends_download before (init_task k ∷ jobs) = ends_download false jobs
ends_download before (get_object request ∷ jobs) = ends_download true jobs

abbrev pub is_initializing : Caller → Bool
is_initializing (initializing k) = true
is_initializing _ = false

-- InitConnections sets the counter back under its lock.
unfoldable pub begin_init_step : Caller → Service → Option Service
begin_init_step idle s =
    if weigh is_init s.queue.pushed == 0
    then some
        (record s { client = initializing 0; barrier = record s.barrier { init_counter = 0 } })
    else none
begin_init_step _ s = none

module _ (max_init_count pool_size : ℕ) where
  abbrev pub pool_step : Queue.Action Job → Queue Job Job → Option (Queue Job Job)
  pool_step = Queue.next job_of pool_size

  abbrev pub barrier_step : Init.Action → Barrier → Option Barrier
  barrier_step = Init.next max_init_count pool_size

  -- The loop of InitConnections, which ends the call after its last push.
  unfoldable pub push_init_step : Caller → Service → Option Service
  unfolding Queue.next
  push_init_step (initializing k) s =
      if ltb k max_init_count
      then with_pool (initializing (suc k)) s.barrier
          (pool_step (push_request (init_task k)) s.queue)
      else some (record s { client = idle })
  push_init_step _ s = none

  -- ScheduleDownload: the counter under its lock, the notification, and the push.
  unfoldable pub schedule_step : DownloadRequest → Caller → Service → Option Service
  unfolding Init.next
  schedule_step request idle s =
      with_barrier (interrupting request) s.queue (barrier_step cancel s.barrier)
  schedule_step request _ s = none

  unfoldable pub interrupt_step : Caller → Service → Option Service
  unfolding Init.next
  interrupt_step (interrupting request) s =
      with_barrier (enqueuing request) s.queue (barrier_step notify_cancelled s.barrier)
  interrupt_step _ s = none

  unfoldable pub enqueue_step : Caller → Service → Option Service
  unfolding Queue.next
  enqueue_step (enqueuing request) s =
      with_pool idle s.barrier (pool_step (push_request (get_object request)) s.queue)
  enqueue_step _ s = none

  -- ProcessResponses
  unfoldable pub begin_step : Caller → Service → Option Service
  unfolding Queue.next
  begin_step idle s = with_pool processing s.barrier (pool_step pop_responses s.queue)
  begin_step _ s = none

  unfoldable pub end_step : Caller → Service → Option Service
  unfolding Queue.next
  end_step processing s = with_pool idle s.barrier (pool_step consume_responses s.queue)
  end_step _ s = none

  -- A worker inside a task of InitConnections.
  unfoldable pub advance_step : Worker Job → Init.Action → Service → Option Service
  unfolding Init.next
  advance_step (running (init_task k)) a s =
      if concerns k a then with_barrier s.client s.queue (barrier_step a s.barrier) else none
  advance_step _ a s = none

  -- What one thread does next; none where it cannot.
  unfoldable pub next : Action → Service → Option Service
  unfolding begin_init_step push_init_step schedule_step interrupt_step enqueue_step begin_step
      end_step advance_step Queue.next
  next begin_init s = begin_init_step s.client s
  next push_init s = push_init_step s.client s
  next (schedule request) s = schedule_step request s.client s
  next interrupt s = interrupt_step s.client s
  next enqueue s = enqueue_step s.client s
  next begin_responses s = begin_step s.client s
  next end_responses s = end_step s.client s
  next (work_on i) s =
      if at_loop (s.queue.workers i) s.barrier
      then with_pool s.client s.barrier (pool_step (Queue.work_on i) s.queue)
      else none
  next (advance i a) s = if ltb i pool_size then advance_step (s.queue.workers i) a s else none

  -- What any interleaving of the threads reaches.
  pub data Reach : Service → Type 0 where
    create : Reach created
    later : {s t : Service} → Reach s → (a : Action) → next a s ≡ some t → Reach t
