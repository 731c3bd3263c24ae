-- ===== src/Download/Init/Undisturbed.antt =====
-- The tasks of InitConnections (code/aws/downloader.cc) while ScheduleDownload is not called.
use lab_cpp.Base.{ℕ, zero, suc, ◌≤◌, ◌<◌, ◌≡◌, ◌≢◌, Bool-cases, ◌==◌, inl, inr, refl, some, arith}
use lab_cpp.Base.Text.{Text}
use lab_cpp.Base.Threads.{sum_below, sum_below-move, sum_below-eq-zero}
use lab_cpp.Download.Init.Opening.{counted, sum_below-notify_all, allowed}
use lab_cpp.Download.Init.{
  Task, queued, requesting, parked, woken, announcing, leaving, aborted, opened, Barrier, Action,
  start, call_back, time_out, announce, resume, wake_up, finish, cancel, notify_cancelled,
  notify_all, init_connections, start_task, call_back_task, time_out_task, announce_task,
  resume_task, wake_up_task, finish_task, next,
}

-- The states that the tasks reach with no call of ScheduleDownload.
pub data Undisturbed (max pool_size : ℕ) : Barrier → Type 0 where
  begin : Undisturbed max pool_size init_connections
  later :
      {b c : Barrier}
      → Undisturbed max pool_size b
      → (a : Action) → a ≢ cancel
      → next max pool_size a b ≡ some c
      → Undisturbed max pool_size c

-- The counter is the number of tasks that have counted, and no task has aborted.
abbrev pub IsExact : ℕ → Barrier → Type 0
IsExact max b = (sum_below counted max b.tasks ≡ b.init_counter) × ((j : ℕ) → b.tasks j ≢ aborted)

counted-le-one : (t : Task) → counted t ≤ 1
counted-le-one queued = omega arith
counted-le-one requesting = omega arith
counted-le-one parked = omega arith
counted-le-one woken = omega arith
counted-le-one announcing = omega arith
counted-le-one leaving = omega arith
counted-le-one aborted = omega arith
counted-le-one opened = omega arith

sum_below-le_all : (n : ℕ) (tasks : ℕ → Task) → sum_below counted n tasks ≤ n
unfolding sum_below
sum_below-le_all zero tasks = omega arith
sum_below-le_all (suc n) tasks = omega (arith, sum_below-le_all n tasks, counted-le-one (tasks n))

-- A task that has still to count leaves the counter below its goal.
sum_below-missing :
    (n i : ℕ) (tasks : ℕ → Task) → i < n → counted (tasks i) ≡ 0 → sum_below counted n tasks < n
unfolding sum_below
sum_below-missing zero i tasks h e = absurd (omega arith)
sum_below-missing (suc n) i tasks h e = elim (Bool-cases (i == n)) [
  | inl q ↦ ground (arith, sum_below-le_all n tasks, e)
  | inr q ↦ ground (arith, sum_below-missing n i tasks, counted-le-one (tasks n))
]

module _ (max pool_size : ℕ) where
  start_task-IsExact :
      (i : ℕ) (t : Task) (b c : Barrier)
      → i < max
      → b.tasks i ≡ t
      → start_task max pool_size i t b ≡ some c
      → IsExact max b
      → IsExact max c
  unfolding start_task
  start_task-IsExact i queued b c lt e s (v, w) = (
    ground (
      arith,
      sum_below-missing max i b.tasks lt,
      sum_below-move counted max i requesting b.tasks,
    ),
    λ j. ground (arith, w j, v, sum_below-missing max i b.tasks lt),
  )
  start_task-IsExact i _ b c lt e s v = cc

  call_back_task-IsExact :
      (i : ℕ) (t : Task) (b c : Barrier)
      → i < max
      → b.tasks i ≡ t
      → call_back_task max pool_size i t b ≡ some c
      → IsExact max b
      → IsExact max c
  unfolding call_back_task
  call_back_task-IsExact i requesting b c lt e s (v, w) = (
    ground (
      arith,
      v,
      sum_below-move counted max i parked b.tasks,
      sum_below-move counted max i announcing b.tasks,
    ),
    λ j. ground (arith, w j),
  )
  call_back_task-IsExact i _ b c lt e s v = cc

  time_out_task-IsExact :
      (i : ℕ) (t : Task) (b c : Barrier)
      → i < max
      → b.tasks i ≡ t
      → time_out_task max pool_size i t b ≡ some c
      → IsExact max b
      → IsExact max c
  unfolding time_out_task
  time_out_task-IsExact i requesting b c lt e s (v, w) = (
    ground (
      arith,
      v,
      sum_below-move counted max i leaving b.tasks,
      sum_below-move counted max i announcing b.tasks,
    ),
    λ j. ground (arith, w j),
  )
  time_out_task-IsExact i _ b c lt e s v = cc

  announce_task-IsExact :
      (i : ℕ) (t : Task) (b c : Barrier)
      → i < max
      → b.tasks i ≡ t
      → announce_task max pool_size i t b ≡ some c
      → IsExact max b
      → IsExact max c
  unfolding announce_task
  announce_task-IsExact i announcing b c lt e s (v, w) = (
    ground (
      arith,
      v,
      sum_below-move counted max i leaving (notify_all b.tasks),
      sum_below-notify_all counted refl max b.tasks,
    ),
    λ j. ground (arith, w j),
  )
  announce_task-IsExact i _ b c lt e s v = cc

  resume_task-IsExact :
      (i : ℕ) (t : Task) (b c : Barrier)
      → i < max
      → b.tasks i ≡ t
      → resume_task max pool_size i t b ≡ some c
      → IsExact max b
      → IsExact max c
  unfolding resume_task
  resume_task-IsExact i woken b c lt e s (v, w) = (
    ground (
      arith,
      v,
      sum_below-move counted max i leaving b.tasks,
      sum_below-move counted max i parked b.tasks,
    ),
    λ j. ground (arith, w j),
  )
  resume_task-IsExact i _ b c lt e s v = cc

  wake_up_task-IsExact :
      (i : ℕ) (t : Task) (b c : Barrier)
      → i < max
      → b.tasks i ≡ t
      → wake_up_task max pool_size i t b ≡ some c
      → IsExact max b
      → IsExact max c
  unfolding wake_up_task
  wake_up_task-IsExact i parked b c lt e s (v, w) =
      (ground (arith, v, sum_below-move counted max i woken b.tasks), λ j. ground (arith, w j))
  wake_up_task-IsExact i _ b c lt e s v = cc

  finish_task-IsExact :
      (i : ℕ) (result : Text) (t : Task) (b c : Barrier)
      → i < max
      → b.tasks i ≡ t
      → finish_task max pool_size i result t b ≡ some c
      → IsExact max b
      → IsExact max c
  unfolding finish_task
  finish_task-IsExact i result leaving b c lt e s (v, w) =
      (ground (arith, v, sum_below-move counted max i opened b.tasks), λ j. ground (arith, w j))
  finish_task-IsExact i result _ b c lt e s v = cc

  next-IsExact :
      (a : Action) (b c : Barrier)
      → a ≢ cancel
      → next max pool_size a b ≡ some c
      → IsExact max b
      → IsExact max c
  unfolding next
  next-IsExact (start i) b c m s v =
      let (lt, e) = allowed max pool_size i _ c s in
      start_task-IsExact i (b.tasks i) b c lt refl e v
  next-IsExact (call_back i) b c m s v =
      let (lt, e) = allowed max pool_size i _ c s in
      call_back_task-IsExact i (b.tasks i) b c lt refl e v
  next-IsExact (time_out i) b c m s v =
      let (lt, e) = allowed max pool_size i _ c s in
      time_out_task-IsExact i (b.tasks i) b c lt refl e v
  next-IsExact (announce i) b c m s v =
      let (lt, e) = allowed max pool_size i _ c s in
      announce_task-IsExact i (b.tasks i) b c lt refl e v
  next-IsExact (resume i) b c m s v =
      let (lt, e) = allowed max pool_size i _ c s in
      resume_task-IsExact i (b.tasks i) b c lt refl e v
  next-IsExact (wake_up i) b c m s v =
      let (lt, e) = allowed max pool_size i _ c s in
      wake_up_task-IsExact i (b.tasks i) b c lt refl e v
  next-IsExact (finish i result) b c m s v =
      let (lt, e) = allowed max pool_size i _ c s in
      finish_task-IsExact i result (b.tasks i) b c lt refl e v
  next-IsExact cancel b c m s v = absurd (m refl)
  next-IsExact notify_cancelled b c m s (v, w) =
      (ground (arith, v, sum_below-notify_all counted refl max b.tasks), λ j. ground (arith, w j))

  Undisturbed-IsExact : {b : Barrier} → Undisturbed max pool_size b → IsExact max b
  unfolding init_connections
  Undisturbed-IsExact begin = (sum_below-eq-zero counted max (λ _. queued) (λ j l. refl), λ j e. cc)
  Undisturbed-IsExact (later {b} {c} reach a m s) =
      next-IsExact a b c m s (Undisturbed-IsExact reach)

  -- No initialisation is given up for another: while ScheduleDownload is not called, no task of
  -- InitConnections returns the aborted status, on which GetMetadata would end the process.
  pub no_task_aborts : {b : Barrier} → Undisturbed max pool_size b → (j : ℕ) → b.tasks j ≢ aborted
  no_task_aborts reach j = (Undisturbed-IsExact reach).1 j
