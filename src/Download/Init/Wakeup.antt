-- ===== src/Download/Init/Wakeup.antt =====
-- No notification of InitConnections (code/aws/downloader.cc) is lost.
use lab_cpp.Base.{
  ℕ, ◌+◌, ◌≤◌, ◌≡◌, ◌≢◌, ◌⊎◌, inl, inr, refl, true, Option, none, some, List, [], ◌∷◌, ◌++◌, ltb,
  if◌then◌else◌, arith,
}
use lab_cpp.Base.Text.{Text, codes}
use lab_cpp.Base.Threads.{move}
use lab_cpp.Download.Init.{
  Task, queued, requesting, parked, woken, announcing, leaving, aborted, opened, Barrier, Action,
  start, call_back, time_out, announce, resume, wake_up, finish, cancel, notify_cancelled,
  init_connections, start_task, call_back_task, time_out_task, announce_task, resume_task,
  wake_up_task, finish_task, next, Reach, begin, later,
}

-- Some thread is about to call `notify_all`.
abbrev pub Herald : Barrier → Type 0
Herald b = (b.cancelling ≡ true) ⊎ ((j : ℕ) × (b.tasks j ≡ announcing))

-- Whoever is blocked although the predicate holds is about to be notified.
abbrev pub IsHeralded : ℕ → Barrier → Type 0
IsHeralded max b = (i : ℕ) → b.tasks i ≡ parked → max ≤ b.init_counter → Herald b

-- A move of a task from a state other than announcing leaves the others their herald.
keep :
    (i : ℕ) (t : Task) (b : Barrier) (n : ℕ) (rs : List Text)
    → b.tasks i ≢ announcing
    → Herald b
    → Herald (record b { init_counter = n; tasks = move i t b.tasks; results = rs })
keep i t b n rs h (inl c) = inl c
keep i t b n rs h (inr (j, e)) = inr (j, ground arith)

move-Herald :
    (i : ℕ) (b : Barrier) (n : ℕ)
    → Herald (record b { init_counter = n; tasks = move i announcing b.tasks })
move-Herald i b n = inr (i, ground arith)

module _ (max pool_size : ℕ) where
  start_task-IsHeralded :
      (i : ℕ) (t : Task) (b c : Barrier)
      → b.tasks i ≡ t
      → start_task max pool_size i t b ≡ some c
      → IsHeralded max b
      → IsHeralded max c
  unfolding start_task
  start_task-IsHeralded i queued b c e s v k p h =
      ground (arith, v k, keep i aborted b b.init_counter (b.results ++ codes "ABORTED" ∷ []))
  start_task-IsHeralded i _ b c e s v k p h = cc

  call_back_task-IsHeralded :
      (i : ℕ) (t : Task) (b c : Barrier)
      → b.tasks i ≡ t
      → call_back_task max pool_size i t b ≡ some c
      → IsHeralded max b
      → IsHeralded max c
  unfolding call_back_task
  call_back_task-IsHeralded i requesting b c e s v k p h =
      ground (arith, move-Herald i b (b.init_counter + 1))
  call_back_task-IsHeralded i _ b c e s v k p h = cc

  time_out_task-IsHeralded :
      (i : ℕ) (t : Task) (b c : Barrier)
      → b.tasks i ≡ t
      → time_out_task max pool_size i t b ≡ some c
      → IsHeralded max b
      → IsHeralded max c
  unfolding time_out_task
  time_out_task-IsHeralded i requesting b c e s v k p h = ground (
    arith,
    v k,
    move-Herald i b (b.init_counter + 1),
    keep i leaving b (b.init_counter + 1) b.results,
  )
  time_out_task-IsHeralded i _ b c e s v k p h = cc

  announce_task-IsHeralded :
      (i : ℕ) (t : Task) (b c : Barrier)
      → announce_task max pool_size i t b ≡ some c
      → IsHeralded max c
  unfolding announce_task
  announce_task-IsHeralded i announcing b c s k p h = ground arith
  announce_task-IsHeralded i _ b c s k p h = cc

  resume_task-IsHeralded :
      (i : ℕ) (t : Task) (b c : Barrier)
      → b.tasks i ≡ t
      → resume_task max pool_size i t b ≡ some c
      → IsHeralded max b
      → IsHeralded max c
  unfolding resume_task
  resume_task-IsHeralded i woken b c e s v k p h =
      ground (arith, v k, keep i leaving b b.init_counter b.results)
  resume_task-IsHeralded i _ b c e s v k p h = cc

  wake_up_task-IsHeralded :
      (i : ℕ) (t : Task) (b c : Barrier)
      → b.tasks i ≡ t
      → wake_up_task max pool_size i t b ≡ some c
      → IsHeralded max b
      → IsHeralded max c
  unfolding wake_up_task
  wake_up_task-IsHeralded i parked b c e s v k p h =
      ground (arith, v k, keep i woken b b.init_counter b.results)
  wake_up_task-IsHeralded i _ b c e s v k p h = cc

  finish_task-IsHeralded :
      (i : ℕ) (result : Text) (t : Task) (b c : Barrier)
      → b.tasks i ≡ t
      → finish_task max pool_size i result t b ≡ some c
      → IsHeralded max b
      → IsHeralded max c
  unfolding finish_task
  finish_task-IsHeralded i result leaving b c e s v k p h =
      ground (arith, v k, keep i opened b b.init_counter (b.results ++ result ∷ []))
  finish_task-IsHeralded i result _ b c e s v k p h = cc

  -- What the bounds test of `next` lets through.
  within :
      (i : ℕ) (o : Option Barrier) (c : Barrier)
      → (if ltb i max then o else none) ≡ some c
      → o ≡ some c
  within i o c h = ground arith

  next-IsHeralded :
      (a : Action) (b c : Barrier)
      → next max pool_size a b ≡ some c
      → IsHeralded max b
      → IsHeralded max c
  unfolding next
  next-IsHeralded (start i) b c s v k p h =
      start_task-IsHeralded i (b.tasks i) b c refl (within i _ c s) v k p h
  next-IsHeralded (call_back i) b c s v k p h =
      call_back_task-IsHeralded i (b.tasks i) b c refl (within i _ c s) v k p h
  next-IsHeralded (time_out i) b c s v k p h =
      time_out_task-IsHeralded i (b.tasks i) b c refl (within i _ c s) v k p h
  next-IsHeralded (announce i) b c s v k p h =
      announce_task-IsHeralded i (b.tasks i) b c (within i _ c s) k p h
  next-IsHeralded (resume i) b c s v k p h =
      resume_task-IsHeralded i (b.tasks i) b c refl (within i _ c s) v k p h
  next-IsHeralded (wake_up i) b c s v k p h =
      wake_up_task-IsHeralded i (b.tasks i) b c refl (within i _ c s) v k p h
  next-IsHeralded (finish i result) b c s v k p h =
      finish_task-IsHeralded i result (b.tasks i) b c refl (within i _ c s) v k p h
  next-IsHeralded cancel b c s v k p h = inl (ground arith)
  next-IsHeralded notify_cancelled b c s v k p h = ground arith

  -- No wake-up is lost: in every state that the tasks can reach, if a task is blocked although the
  -- counter has reached `max_init_count`, then some task is about to notify it, or ScheduleDownload
  -- is.
  pub no_lost_wakeup :
      {b : Barrier}
      → Reach max pool_size b
      → (i : ℕ) → b.tasks i ≡ parked
      → max ≤ b.init_counter
      → (b.cancelling ≡ true) ⊎ ((j : ℕ) × (b.tasks j ≡ announcing))
  unfolding init_connections
  no_lost_wakeup begin i p h = cc
  no_lost_wakeup (later {b} {c} reach a s) i p h =
      next-IsHeralded a b c s (no_lost_wakeup reach) i p h
