-- ===== src/Download/Init.antt =====
-- The connections that InitConnections of code/aws/downloader.cc opens ahead of the downloads: each
-- task holds its connection until `max_init_count` of them have one, and ScheduleDownload cancels the
-- rest. An action is what one thread does between two points at which another can be seen to run.
-- The results that the tasks record are kept, the times beside them are not.
pub mod Wakeup
pub mod Opening
pub mod Undisturbed
use lab_cpp.Base.{
  ℕ, suc, ◌+◌, ◌≡◌, Bool, true, false, Option, none, some, List, [], ◌∷◌, ◌++◌, if◌then◌else◌, ltb,
  leb, ◌==◌,
}
use lab_cpp.Base.Text.{Text, codes}
use lab_cpp.Base.Threads.{move}

-- Where a task stands: in the request queue; in its DeleteObject request, before the first byte;
-- blocked in `init_interruption_cv_.wait`; notified, and before it tests the predicate again; before
-- its `notify_all`; past that; and returned, with an aborted status or a response.
pub data Task : Type 0 where
  queued requesting parked woken announcing leaving aborted opened : Task

-- `cancelling` stands between the two lines of ScheduleDownload that concern the tasks.
pub record Barrier : Type 0 where
  pub init_counter : ℕ
  pub tasks : ℕ → Task
  pub cancelling : Bool
  pub results : List Text

pub data Action : Type 0 where
  start call_back time_out announce resume wake_up : (task : ℕ) → Action
  finish : (task : ℕ) (result : Text) → Action
  cancel notify_cancelled : Action

abbrev pub wake : Task → Task
wake parked = woken
wake t = t

-- `init_interruption_cv_.notify_all()`
abbrev pub notify_all : (ℕ → Task) → ℕ → Task
notify_all tasks i = wake (tasks i)

-- InitConnections sets the counter back before it queues its tasks.
unfoldable pub init_connections : Barrier
init_connections = record {
  init_counter = 0;
  tasks = λ _. queued;
  cancelling = false;
  results = [];
}

module _ (max_init_count pool_size : ℕ) where
  -- The guard at the head of a task.
  unfoldable pub start_task : ℕ → Task → Barrier → Option Barrier
  start_task i queued b =
      if leb max_init_count b.init_counter
      then some
          (record b { tasks = move i aborted b.tasks; results = b.results ++ codes "ABORTED" ∷ [] })
      else some (record b { tasks = move i requesting b.tasks })
  start_task i _ b = none

  -- The handler of the first data: it counts, and waits or announces.
  unfoldable pub call_back_task : ℕ → Task → Barrier → Option Barrier
  call_back_task i requesting b =
      if ltb (b.init_counter + 1) max_init_count
      then some (record b { init_counter = b.init_counter + 1; tasks = move i parked b.tasks })
      else some (record b { init_counter = b.init_counter + 1; tasks = move i announcing b.tasks })
  call_back_task i _ b = none

  -- The request has ended and the handler was never called.
  unfoldable pub time_out_task : ℕ → Task → Barrier → Option Barrier
  time_out_task i requesting b =
      if (b.init_counter + 1) == max_init_count
      then some (record b { init_counter = b.init_counter + 1; tasks = move i announcing b.tasks })
      else some (record b { init_counter = b.init_counter + 1; tasks = move i leaving b.tasks })
  time_out_task i _ b = none

  unfoldable pub announce_task : ℕ → Task → Barrier → Option Barrier
  announce_task i announcing b = some (record b { tasks = move i leaving (notify_all b.tasks) })
  announce_task i _ b = none

  -- The predicate of the wait, tested again after a notification.
  unfoldable pub resume_task : ℕ → Task → Barrier → Option Barrier
  resume_task i woken b =
      if leb max_init_count b.init_counter
      then some (record b { tasks = move i leaving b.tasks })
      else some (record b { tasks = move i parked b.tasks })
  resume_task i _ b = none

  -- A spurious wake-up: `wait` allows it, and tests its predicate again.
  unfoldable pub wake_up_task : ℕ → Task → Barrier → Option Barrier
  wake_up_task i parked b = some (record b { tasks = move i woken b.tasks })
  wake_up_task i _ b = none

  -- NewInitConnection with the outcome of the request, and the return.
  unfoldable pub finish_task : ℕ → Text → Task → Barrier → Option Barrier
  finish_task i result leaving b =
      some (record b { tasks = move i opened b.tasks; results = b.results ++ result ∷ [] })
  finish_task i result _ b = none

  unfoldable pub next : Action → Barrier → Option Barrier
  unfolding start_task call_back_task time_out_task announce_task resume_task wake_up_task
      finish_task
  next (start i) b = if ltb i max_init_count then start_task i (b.tasks i) b else none
  next (call_back i) b = if ltb i max_init_count then call_back_task i (b.tasks i) b else none
  next (time_out i) b = if ltb i max_init_count then time_out_task i (b.tasks i) b else none
  next (announce i) b = if ltb i max_init_count then announce_task i (b.tasks i) b else none
  next (resume i) b = if ltb i max_init_count then resume_task i (b.tasks i) b else none
  next (wake_up i) b = if ltb i max_init_count then wake_up_task i (b.tasks i) b else none
  next (finish i result) b =
      if ltb i max_init_count then finish_task i result (b.tasks i) b else none
  next cancel b = some (record b { init_counter = pool_size; cancelling = true })
  next notify_cancelled b =
      if b.cancelling
      then some (record b { tasks = notify_all b.tasks; cancelling = false })
      else none

  pub data Reach : Barrier → Type 0 where
    begin : Reach init_connections
    later : {b c : Barrier} → Reach b → (a : Action) → next a b ≡ some c → Reach c
