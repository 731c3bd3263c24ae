-- ===== src/Download/Init/Opening.antt =====
-- The counter of InitConnections (code/aws/downloader.cc) reaches its goal.
use lab_cpp.Base.{
  ℕ, zero, suc, ◌≤◌, ◌<◌, ◌≡◌, ◌≢◌, ◌⊎◌, inl, inr, refl, Option, none, some, ltb, if◌then◌else◌,
  arith,
}
use lab_cpp.Base.Text.{Text}
use lab_cpp.Base.Threads.{sum_below, sum_below-move, sum_below-eq-zero}
use lab_cpp.Download.Init.Wakeup.{Herald, no_lost_wakeup}
use lab_cpp.Download.Init.{
  Task, queued, requesting, parked, woken, announcing, leaving, aborted, opened, Barrier, Action,
  start, call_back, time_out, announce, resume, wake_up, finish, cancel, notify_cancelled,
  notify_all, wake, init_connections, start_task, call_back_task, time_out_task, announce_task,
  resume_task, wake_up_task, finish_task, next, Reach, begin, later,
}

-- 0 for a task that is still to count. One that aborts finds that the counter has reached its goal.
abbrev pub counted : Task → ℕ
counted queued = 0
counted requesting = 0
counted _ = 1

-- The counter is the number of the tasks that have counted, until it has reached its goal.
abbrev pub IsCounting : ℕ → Barrier → Type 0
IsCounting max b = (max ≤ b.init_counter) ⊎ (sum_below counted max b.tasks ≡ b.init_counter)

-- A notification changes no sum to which the blocked and the notified contribute alike.
wake-weight : (w : Task → ℕ) → w woken ≡ w parked → (t : Task) → w (wake t) ≡ w t
wake-weight w e parked = e
wake-weight w e queued = refl
wake-weight w e requesting = refl
wake-weight w e woken = refl
wake-weight w e announcing = refl
wake-weight w e leaving = refl
wake-weight w e aborted = refl
wake-weight w e opened = refl

pub sum_below-notify_all :
    (w : Task → ℕ)
    → w woken ≡ w parked
    → (n : ℕ) (tasks : ℕ → Task) → sum_below w n (notify_all tasks) ≡ sum_below w n tasks
unfolding sum_below
sum_below-notify_all w e zero tasks = refl
sum_below-notify_all w e (suc n) tasks =
    omega (arith, sum_below-notify_all w e n tasks, wake-weight w e (tasks n))

counted-one : (t : Task) → t ≢ queued → t ≢ requesting → counted t ≡ 1
counted-one queued p q = absurd (p refl)
counted-one requesting p q = absurd (q refl)
counted-one parked p q = refl
counted-one woken p q = refl
counted-one announcing p q = refl
counted-one leaving p q = refl
counted-one aborted p q = refl
counted-one opened p q = refl

sum_below-counted :
    (n : ℕ) (tasks : ℕ → Task)
    → ((j : ℕ) → j < n → (tasks j ≢ queued) × (tasks j ≢ requesting))
    → sum_below counted n tasks ≡ n
unfolding sum_below
sum_below-counted zero tasks p = refl
sum_below-counted (suc n) tasks p = ground (
  arith,
  sum_below-counted n tasks (λ j l. p j (ground arith)),
  counted-one (tasks n) ((p n (ground arith)).0) ((p n (ground arith)).1),
)

module _ (max pool_size : ℕ) where
  start_task-IsCounting :
      (i : ℕ) (t : Task) (b c : Barrier)
      → i < max
      → b.tasks i ≡ t
      → start_task max pool_size i t b ≡ some c
      → IsCounting max b
      → IsCounting max c
  unfolding start_task
  start_task-IsCounting i queued b c lt e s v = ground (
    arith,
    sum_below-move counted max i requesting b.tasks,
    sum_below-move counted max i aborted b.tasks,
  )
  start_task-IsCounting i _ b c lt e s v = cc

  call_back_task-IsCounting :
      (i : ℕ) (t : Task) (b c : Barrier)
      → i < max
      → b.tasks i ≡ t
      → call_back_task max pool_size i t b ≡ some c
      → IsCounting max b
      → IsCounting max c
  unfolding call_back_task
  call_back_task-IsCounting i requesting b c lt e s v = ground (
    arith,
    sum_below-move counted max i parked b.tasks,
    sum_below-move counted max i announcing b.tasks,
  )
  call_back_task-IsCounting i _ b c lt e s v = cc

  time_out_task-IsCounting :
      (i : ℕ) (t : Task) (b c : Barrier)
      → i < max
      → b.tasks i ≡ t
      → time_out_task max pool_size i t b ≡ some c
      → IsCounting max b
      → IsCounting max c
  unfolding time_out_task
  time_out_task-IsCounting i requesting b c lt e s v = ground (
    arith,
    sum_below-move counted max i leaving b.tasks,
    sum_below-move counted max i announcing b.tasks,
  )
  time_out_task-IsCounting i _ b c lt e s v = cc

  announce_task-IsCounting :
      (i : ℕ) (t : Task) (b c : Barrier)
      → i < max
      → b.tasks i ≡ t
      → announce_task max pool_size i t b ≡ some c
      → IsCounting max b
      → IsCounting max c
  unfolding announce_task
  announce_task-IsCounting i announcing b c lt e s v = ground (
    arith,
    sum_below-move counted max i leaving (notify_all b.tasks),
    sum_below-notify_all counted refl max b.tasks,
  )
  announce_task-IsCounting i _ b c lt e s v = cc

  resume_task-IsCounting :
      (i : ℕ) (t : Task) (b c : Barrier)
      → i < max
      → b.tasks i ≡ t
      → resume_task max pool_size i t b ≡ some c
      → IsCounting max b
      → IsCounting max c
  unfolding resume_task
  resume_task-IsCounting i woken b c lt e s v = ground (
    arith,
    sum_below-move counted max i leaving b.tasks,
    sum_below-move counted max i parked b.tasks,
  )
  resume_task-IsCounting i _ b c lt e s v = cc

  wake_up_task-IsCounting :
      (i : ℕ) (t : Task) (b c : Barrier)
      → i < max
      → b.tasks i ≡ t
      → wake_up_task max pool_size i t b ≡ some c
      → IsCounting max b
      → IsCounting max c
  unfolding wake_up_task
  wake_up_task-IsCounting i parked b c lt e s v =
      ground (arith, sum_below-move counted max i woken b.tasks)
  wake_up_task-IsCounting i _ b c lt e s v = cc

  finish_task-IsCounting :
      (i : ℕ) (result : Text) (t : Task) (b c : Barrier)
      → i < max
      → b.tasks i ≡ t
      → finish_task max pool_size i result t b ≡ some c
      → IsCounting max b
      → IsCounting max c
  unfolding finish_task
  finish_task-IsCounting i result leaving b c lt e s v =
      ground (arith, sum_below-move counted max i opened b.tasks)
  finish_task-IsCounting i result _ b c lt e s v = cc

  pub allowed :
      (i : ℕ) (o : Option Barrier) (c : Barrier)
      → (if ltb i max then o else none) ≡ some c
      → (i < max) × (o ≡ some c)
  allowed i o c h = ground arith

  next-IsCounting :
      (a : Action) (b c : Barrier)
      → max ≤ pool_size
      → next max pool_size a b ≡ some c
      → IsCounting max b
      → IsCounting max c
  unfolding next
  next-IsCounting (start i) b c m s v =
      let (lt, e) = allowed i _ c s in start_task-IsCounting i (b.tasks i) b c lt refl e v
  next-IsCounting (call_back i) b c m s v =
      let (lt, e) = allowed i _ c s in call_back_task-IsCounting i (b.tasks i) b c lt refl e v
  next-IsCounting (time_out i) b c m s v =
      let (lt, e) = allowed i _ c s in time_out_task-IsCounting i (b.tasks i) b c lt refl e v
  next-IsCounting (announce i) b c m s v =
      let (lt, e) = allowed i _ c s in announce_task-IsCounting i (b.tasks i) b c lt refl e v
  next-IsCounting (resume i) b c m s v =
      let (lt, e) = allowed i _ c s in resume_task-IsCounting i (b.tasks i) b c lt refl e v
  next-IsCounting (wake_up i) b c m s v =
      let (lt, e) = allowed i _ c s in wake_up_task-IsCounting i (b.tasks i) b c lt refl e v
  next-IsCounting (finish i result) b c m s v =
      let (lt, e) = allowed i _ c s in finish_task-IsCounting i result (b.tasks i) b c lt refl e v
  next-IsCounting cancel b c m s v = inl (ground arith)
  next-IsCounting notify_cancelled b c m s v =
      ground (arith, sum_below-notify_all counted refl max b.tasks)

  Reach-IsCounting : {b : Barrier} → max ≤ pool_size → Reach max pool_size b → IsCounting max b
  unfolding init_connections
  Reach-IsCounting m begin = inr (sum_below-eq-zero counted max (λ _. queued) (λ j l. refl))
  Reach-IsCounting m (later {b} {c} reach a s) =
      next-IsCounting a b c m s (Reach-IsCounting m reach)

  -- The barrier fills: with a pool of at least `max_init_count` threads, in every state that the
  -- tasks can reach in which none of the first `max_init_count` tasks is queued or in its
  -- request, the counter has reached `max_init_count`.
  pub barrier_fills :
      {b : Barrier}
      → max ≤ pool_size
      → Reach max pool_size b
      → ((j : ℕ) → j < max → (b.tasks j ≢ queued) × (b.tasks j ≢ requesting))
      → max ≤ b.init_counter
  barrier_fills {b} m reach settled =
      ground (arith, Reach-IsCounting m reach, sum_below-counted max b.tasks settled)

  -- No task is left behind the barrier: with a pool of at least `max_init_count` threads, in
  -- every state that the tasks can reach in which none of the first `max_init_count` tasks is
  -- queued or in its request, whenever a task is blocked, some task or ScheduleDownload is about
  -- to notify it.
  pub barrier_opens :
      {b : Barrier}
      → max ≤ pool_size
      → Reach max pool_size b
      → ((j : ℕ) → j < max → (b.tasks j ≢ queued) × (b.tasks j ≢ requesting))
      → (i : ℕ) → b.tasks i ≡ parked
      → Herald b
  barrier_opens m reach settled i p =
      no_lost_wakeup max pool_size reach i p (barrier_fills m reach settled)
