-- ===== src/Download/Pool/Interrupted.antt =====
-- The tasks of InitConnections once ScheduleDownload has interrupted them (code/aws/downloader.cc).
use lab_cpp.Base.{ℕ, ◌≤◌, ◌<◌, ◌≡◌, ◌≢◌, refl, true, some, arith}
use lab_cpp.Base.Text.{Text}
use lab_cpp.Base.Threads.{sum_below, sum_below-move}
use lab_cpp.Download.Init.Opening.{sum_below-notify_all, allowed}
use lab_cpp.Download.Init.{
  Task, queued, requesting, parked, woken, announcing, leaving, aborted, opened, Barrier, Action,
  start, call_back, time_out, announce, resume, wake_up, finish, cancel, notify_cancelled, wake,
  notify_all, start_task, call_back_task, time_out_task, announce_task, resume_task, wake_up_task,
  finish_task, next,
}
use lab_cpp.Download.Pool.{concerns}

-- The counter has reached its goal, and no task is blocked.
abbrev pub IsInterrupted : ℕ → Barrier → Type 0
IsInterrupted max b = (max ≤ b.init_counter) × ((j : ℕ) → b.tasks j ≢ parked)

-- The steps that a task has still to take, at most.
abbrev pub steps_of : Task → ℕ
steps_of queued = 4
steps_of requesting = 3
steps_of parked = 2
steps_of woken = 2
steps_of announcing = 2
steps_of leaving = 1
steps_of aborted = 0
steps_of opened = 0

wake-not_parked : (t : Task) → wake t ≢ parked
wake-not_parked queued e = cc
wake-not_parked requesting e = cc
wake-not_parked parked e = cc
wake-not_parked woken e = cc
wake-not_parked announcing e = cc
wake-not_parked leaving e = cc
wake-not_parked aborted e = cc
wake-not_parked opened e = cc

module _ (max pool_size : ℕ) where
  abbrev pub task_steps : Barrier → ℕ
  task_steps b = sum_below steps_of max b.tasks

  start_task-settles :
      (i : ℕ) (t : Task) (b c : Barrier)
      → i < max
      → b.tasks i ≡ t
      → start_task max pool_size i t b ≡ some c
      → IsInterrupted max b
      → IsInterrupted max c × (task_steps c < task_steps b)
  unfolding start_task
  start_task-settles i queued b c lt e s (m, v) = (
    (ground arith, λ j. ground (arith, v j)),
    ground (arith, sum_below-move steps_of max i aborted b.tasks),
  )
  start_task-settles i _ b c lt e s v = cc

  call_back_task-settles :
      (i : ℕ) (t : Task) (b c : Barrier)
      → i < max
      → b.tasks i ≡ t
      → call_back_task max pool_size i t b ≡ some c
      → IsInterrupted max b
      → IsInterrupted max c × (task_steps c < task_steps b)
  unfolding call_back_task
  call_back_task-settles i requesting b c lt e s (m, v) = (
    (ground arith, λ j. ground (arith, v j)),
    ground (arith, sum_below-move steps_of max i announcing b.tasks),
  )
  call_back_task-settles i _ b c lt e s v = cc

  time_out_task-settles :
      (i : ℕ) (t : Task) (b c : Barrier)
      → i < max
      → b.tasks i ≡ t
      → time_out_task max pool_size i t b ≡ some c
      → IsInterrupted max b
      → IsInterrupted max c × (task_steps c < task_steps b)
  unfolding time_out_task
  time_out_task-settles i requesting b c lt e s (m, v) = (
    (ground arith, λ j. ground (arith, v j)),
    ground (
      arith,
      sum_below-move steps_of max i announcing b.tasks,
      sum_below-move steps_of max i leaving b.tasks,
    ),
  )
  time_out_task-settles i _ b c lt e s v = cc

  announce_task-settles :
      (i : ℕ) (t : Task) (b c : Barrier)
      → i < max
      → b.tasks i ≡ t
      → announce_task max pool_size i t b ≡ some c
      → IsInterrupted max b
      → IsInterrupted max c × (task_steps c < task_steps b)
  unfolding announce_task
  announce_task-settles i announcing b c lt e s (m, v) = (
    (ground arith, λ j. ground (arith, wake-not_parked (b.tasks j))),
    ground (
      arith,
      sum_below-move steps_of max i leaving (notify_all b.tasks),
      sum_below-notify_all steps_of refl max b.tasks,
    ),
  )
  announce_task-settles i _ b c lt e s v = cc

  resume_task-settles :
      (i : ℕ) (t : Task) (b c : Barrier)
      → i < max
      → b.tasks i ≡ t
      → resume_task max pool_size i t b ≡ some c
      → IsInterrupted max b
      → IsInterrupted max c × (task_steps c < task_steps b)
  unfolding resume_task
  resume_task-settles i woken b c lt e s (m, v) = (
    (ground arith, λ j. ground (arith, v j)),
    ground (arith, sum_below-move steps_of max i leaving b.tasks),
  )
  resume_task-settles i _ b c lt e s v = cc

  wake_up_task-settles :
      (i : ℕ) (t : Task) (b c : Barrier)
      → i < max
      → b.tasks i ≡ t
      → wake_up_task max pool_size i t b ≡ some c
      → IsInterrupted max b
      → IsInterrupted max c × (task_steps c < task_steps b)
  unfolding wake_up_task
  wake_up_task-settles i parked b c lt e s (m, v) = absurd (v i e)
  wake_up_task-settles i _ b c lt e s v = cc

  finish_task-settles :
      (i : ℕ) (result : Text) (t : Task) (b c : Barrier)
      → i < max
      → b.tasks i ≡ t
      → finish_task max pool_size i result t b ≡ some c
      → IsInterrupted max b
      → IsInterrupted max c × (task_steps c < task_steps b)
  unfolding finish_task
  finish_task-settles i result leaving b c lt e s (m, v) = (
    (ground arith, λ j. ground (arith, v j)),
    ground (arith, sum_below-move steps_of max i opened b.tasks),
  )
  finish_task-settles i result _ b c lt e s v = cc

  -- Once the tasks are interrupted they stay so, and each of their steps leaves them fewer.
  pub next-settles :
      (k : ℕ) (a : Action) (b c : Barrier)
      → concerns k a ≡ true
      → next max pool_size a b ≡ some c
      → IsInterrupted max b
      → IsInterrupted max c × (task_steps c < task_steps b)
  unfolding next
  next-settles k (start i) b c h s v =
      let (lt, e) = allowed max pool_size i _ c s in
      start_task-settles i (b.tasks i) b c lt refl e v
  next-settles k (call_back i) b c h s v =
      let (lt, e) = allowed max pool_size i _ c s in
      call_back_task-settles i (b.tasks i) b c lt refl e v
  next-settles k (time_out i) b c h s v =
      let (lt, e) = allowed max pool_size i _ c s in
      time_out_task-settles i (b.tasks i) b c lt refl e v
  next-settles k (announce i) b c h s v =
      let (lt, e) = allowed max pool_size i _ c s in
      announce_task-settles i (b.tasks i) b c lt refl e v
  next-settles k (resume i) b c h s v =
      let (lt, e) = allowed max pool_size i _ c s in
      resume_task-settles i (b.tasks i) b c lt refl e v
  next-settles k (wake_up i) b c h s v =
      let (lt, e) = allowed max pool_size i _ c s in
      wake_up_task-settles i (b.tasks i) b c lt refl e v
  next-settles k (finish i result) b c h s v =
      let (lt, e) = allowed max pool_size i _ c s in
      finish_task-settles i result (b.tasks i) b c lt refl e v
  next-settles k cancel b c h s v = cc
  next-settles k notify_cancelled b c h s v = cc

  -- The cancellation brings the counter to its goal, and the notification frees whoever is blocked.
  pub cancel-reaches :
      (b c : Barrier)
      → max ≤ pool_size
      → next max pool_size cancel b ≡ some c
      → max ≤ c.init_counter
  unfolding next
  cancel-reaches b c m s = ground arith

  pub notify_cancelled-interrupts :
      (b c : Barrier)
      → max ≤ b.init_counter
      → next max pool_size notify_cancelled b ≡ some c
      → IsInterrupted max c
  unfolding next
  notify_cancelled-interrupts b c m s =
      (ground arith, λ j. ground (arith, wake-not_parked (b.tasks j)))
