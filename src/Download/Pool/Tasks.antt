-- ===== src/Download/Pool/Tasks.antt =====
-- The steps of the tasks of InitConnections (code/aws/downloader.cc), interrupted or not.
use lab_cpp.Base.{ℕ, ◌≤◌, ◌<◌, ◌≡◌, ◌≢◌, refl, false, true, none, some, [], arith}
use lab_cpp.Download.Init.{
  Task, queued, requesting, parked, woken, announcing, leaving, aborted, opened, Barrier, Action,
  start, call_back, time_out, announce, resume, wake_up, finish, cancel, notify_cancelled, wake,
  start_task, call_back_task, time_out_task, announce_task, resume_task, wake_up_task, finish_task,
  next,
}
use lab_cpp.Base.Text.{Text}
use lab_cpp.Download.Init.Opening.{allowed}
use lab_cpp.Download.Pool.{concerns, has_returned}

-- A step that goes no further than its task.
abbrev IsForward : Barrier → Barrier → Type 0
IsForward b c =
    (b.init_counter ≤ c.init_counter)
    × ((j : ℕ) → has_returned (b.tasks j) ≡ true → c.tasks j ≡ b.tasks j)

-- The next step of task `k`; of a request that is under way, that its handler is called.
abbrev pub step_of : ℕ → Task → Action
step_of k queued = start k
step_of k requesting = call_back k
step_of k parked = wake_up k
step_of k woken = resume k
step_of k announcing = announce k
step_of k leaving = finish k []
step_of k aborted = finish k []
step_of k opened = finish k []

pub wake-returned : (t : Task) → has_returned t ≡ true → wake t ≡ t
wake-returned parked h = cc
wake-returned aborted h = refl
wake-returned opened h = refl
wake-returned _ h = cc

module _ (max pool_size : ℕ) where
  start_task-IsForward :
      (i : ℕ) (t : Task) (b c : Barrier)
      → b.tasks i ≡ t
      → start_task max pool_size i t b ≡ some c
      → IsForward b c
  unfolding start_task
  start_task-IsForward i queued b c e s = (ground arith, λ j h. ground arith)
  start_task-IsForward i _ b c e s = cc

  call_back_task-IsForward :
      (i : ℕ) (t : Task) (b c : Barrier)
      → b.tasks i ≡ t
      → call_back_task max pool_size i t b ≡ some c
      → IsForward b c
  unfolding call_back_task
  call_back_task-IsForward i requesting b c e s = (ground arith, λ j h. ground arith)
  call_back_task-IsForward i _ b c e s = cc

  time_out_task-IsForward :
      (i : ℕ) (t : Task) (b c : Barrier)
      → b.tasks i ≡ t
      → time_out_task max pool_size i t b ≡ some c
      → IsForward b c
  unfolding time_out_task
  time_out_task-IsForward i requesting b c e s = (ground arith, λ j h. ground arith)
  time_out_task-IsForward i _ b c e s = cc

  announce_task-IsForward :
      (i : ℕ) (t : Task) (b c : Barrier)
      → b.tasks i ≡ t
      → announce_task max pool_size i t b ≡ some c
      → IsForward b c
  unfolding announce_task
  announce_task-IsForward i announcing b c e s =
      (ground arith, λ j h. ground (arith, wake-returned (b.tasks j)))
  announce_task-IsForward i _ b c e s = cc

  resume_task-IsForward :
      (i : ℕ) (t : Task) (b c : Barrier)
      → b.tasks i ≡ t
      → resume_task max pool_size i t b ≡ some c
      → IsForward b c
  unfolding resume_task
  resume_task-IsForward i woken b c e s = (ground arith, λ j h. ground arith)
  resume_task-IsForward i _ b c e s = cc

  wake_up_task-IsForward :
      (i : ℕ) (t : Task) (b c : Barrier)
      → b.tasks i ≡ t
      → wake_up_task max pool_size i t b ≡ some c
      → IsForward b c
  unfolding wake_up_task
  wake_up_task-IsForward i parked b c e s = (ground arith, λ j h. ground arith)
  wake_up_task-IsForward i _ b c e s = cc

  finish_task-IsForward :
      (i : ℕ) (result : Text) (t : Task) (b c : Barrier)
      → b.tasks i ≡ t
      → finish_task max pool_size i result t b ≡ some c
      → IsForward b c
  unfolding finish_task
  finish_task-IsForward i result leaving b c e s = (ground arith, λ j h. ground arith)
  finish_task-IsForward i result _ b c e s = cc

  -- A task never lowers the counter, and a task that has returned is at its end.
  pub next-forward :
      (k : ℕ) (a : Action) (b c : Barrier)
      → concerns k a ≡ true
      → next max pool_size a b ≡ some c
      → (b.init_counter ≤ c.init_counter)
        × ((j : ℕ) → has_returned (b.tasks j) ≡ true → c.tasks j ≡ b.tasks j)
  unfolding next
  next-forward k (start i) b c h s =
      let (lt, e) = allowed max pool_size i _ c s in start_task-IsForward i (b.tasks i) b c refl e
  next-forward k (call_back i) b c h s =
      let (lt, e) = allowed max pool_size i _ c s in
      call_back_task-IsForward i (b.tasks i) b c refl e
  next-forward k (time_out i) b c h s =
      let (lt, e) = allowed max pool_size i _ c s in
      time_out_task-IsForward i (b.tasks i) b c refl e
  next-forward k (announce i) b c h s =
      let (lt, e) = allowed max pool_size i _ c s in
      announce_task-IsForward i (b.tasks i) b c refl e
  next-forward k (resume i) b c h s =
      let (lt, e) = allowed max pool_size i _ c s in resume_task-IsForward i (b.tasks i) b c refl e
  next-forward k (wake_up i) b c h s =
      let (lt, e) = allowed max pool_size i _ c s in wake_up_task-IsForward i (b.tasks i) b c refl e
  next-forward k (finish i result) b c h s =
      let (lt, e) = allowed max pool_size i _ c s in
      finish_task-IsForward i result (b.tasks i) b c refl e
  next-forward k cancel b c h s = cc
  next-forward k notify_cancelled b c h s = cc

  -- A task that is not blocked and has not returned can take its next step.
  pub step_of-enabled :
      (k : ℕ) (t : Task) (b : Barrier)
      → k < max
      → b.tasks k ≡ t
      → t ≢ parked
      → has_returned t ≡ false
      → (concerns k (step_of k t) ≡ true) × (next max pool_size (step_of k t) b ≢ none)
  unfolding next start_task call_back_task time_out_task announce_task resume_task finish_task
  step_of-enabled k queued b lt e p h = ground arith
  step_of-enabled k requesting b lt e p h = ground arith
  step_of-enabled k parked b lt e p h = absurd (p refl)
  step_of-enabled k woken b lt e p h = ground arith
  step_of-enabled k announcing b lt e p h = ground arith
  step_of-enabled k leaving b lt e p h = ground arith
  step_of-enabled k aborted b lt e p h = cc
  step_of-enabled k opened b lt e p h = cc

  pub cancel-tasks :
      (b c : Barrier) → next max pool_size cancel b ≡ some c → (k : ℕ) → c.tasks k ≡ b.tasks k
  unfolding next
  cancel-tasks b c e k = ground arith
