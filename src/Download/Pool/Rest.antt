-- ===== src/Download/Pool/Rest.antt =====
-- Where the threads of a Downloader come to rest (code/aws/downloader.cc).
use mathlib.Core.Path.{ap}
use lab_cpp.Base.{
  ℕ, ◌+◌, ◌≤◌, ◌<◌, ◌≡◌, ◌≢◌, ◌⊎◌, length, refl, Bool, true, false, Bool-cases, ltb, inl, inr,
  Option, none, some, List, [], arith, weigh,
}
use lab_cpp.Base.Threads.{sum_below-eq-zero, sum_below-le}
use lab_cpp.Async.Queue
use lab_cpp.Async.Queue.{
  Worker, waiting, running, notifying, stopped, Queue, consume_responses, consume, turn,
}
use lab_cpp.Async.Synchronizer.{wait_returns}
use lab_cpp.Async.Count.{owes, queued-wait_returns}
use lab_cpp.Async.Conservation.{carried, held, responses_conserved}
use lab_cpp.Async.Work.{turn-idle}
use lab_cpp.Download.Init
use lab_cpp.Download.Init.{
  Barrier, Task, start_task, queued, requesting, parked, woken, announcing, leaving, aborted,
  opened, wake_up, start,
}
use lab_cpp.Download.Init.Opening.{allowed}
use lab_cpp.Download.Pool.Interrupted.{IsInterrupted}
use lab_cpp.Download.Pool.Tasks.{step_of, step_of-enabled}
use lab_cpp.Download.Pool.Serving.{is_unknown, IsServing}
use lab_cpp.Download.Pool.Workers.{Reach-IsServing}
use lab_cpp.Download.Pool.Ends.{serves}
use lab_cpp.Download.Pool.{
  Job, init_task, get_object, Caller, initializing, idle, interrupting, enqueuing, processing,
  Service, Action, is_initializing, ends_download, end_responses, work_on, advance, job_of,
  concerns, has_returned, at_loop, with_barrier, with_pool, pool_step, end_step, advance_step, next,
  Reach,
}

with_pool-none :
    (client : Caller) (b : Barrier) (o : Option (Queue Job Job))
    → with_pool client b o ≡ none
    → o ≡ none
with_pool-none client b none e = refl
with_pool-none client b (some q) e = cc

with_barrier-none :
    (client : Caller) (q : Queue Job Job) (o : Option Barrier)
    → with_barrier client q o ≡ none
    → o ≡ none
with_barrier-none client q none e = refl
with_barrier-none client q (some b) e = cc

abbrev pub is_spurious : Action → Bool
is_spurious (advance i (wake_up k)) = true
is_spurious _ = false

step_of-not_spurious :
    (i k : ℕ) (t : Task) → t ≢ parked → is_spurious (advance i (step_of k t)) ≡ false
step_of-not_spurious i k queued p = refl
step_of-not_spurious i k requesting p = refl
step_of-not_spurious i k parked p = absurd (p refl)
step_of-not_spurious i k woken p = refl
step_of-not_spurious i k announcing p = refl
step_of-not_spurious i k leaving p = refl
step_of-not_spurious i k aborted p = refl
step_of-not_spurious i k opened p = refl

module _ (max n : ℕ) where
  -- No worker can take a step, and no call of ProcessResponses is to end; a spurious wake-up is no
  -- step here, since nothing makes it come.
  abbrev pub AtRest : Service → Type 0
  AtRest s = (a : Action) → serves a ≡ true → is_spurious a ≡ false → next max n a s ≡ none

  consume-none :
      (p : Option (List Job)) (q : Queue Job Job)
      → q.popping ≡ p
      → pool_step max n consume_responses q ≡ none
      → p ≡ none
  unfolding Queue.next consume
  consume-none none q p e = refl
  consume-none (some taken) q p e = let f : consume job_of (some taken) q ≡ none = rw p at e in cc

  rest-end :
      (client : Caller) (s : Service)
      → end_step max n client s ≡ none
      → (client ≢ processing → s.queue.popping ≡ none)
      → s.queue.popping ≡ none
  unfolding end_step
  rest-end processing s e f =
      consume-none s.queue.popping s.queue refl (with_pool-none idle s.barrier _ e)
  rest-end (initializing k) s e f = f (λ z. cc)
  rest-end idle s e f = f (λ z. cc)
  rest-end (interrupting r) s e f = f (λ z. cc)
  rest-end (enqueuing r) s e f = f (λ z. cc)

  rest-popping :
      (s : Service) → AtRest s → IsServing max n s.client s.barrier s.queue → s.queue.popping ≡ none
  unfolding next end_step
  rest-popping s still d = rest-end s.client s (still end_responses refl refl) d.free

  rest-turn :
      (i : ℕ) (s : Service)
      → i < n
      → at_loop (s.queue.workers i) s.barrier ≡ true
      → next max n (work_on i) s ≡ none
      → turn job_of i (s.queue.workers i) s.queue ≡ none
  unfolding next Queue.next
  rest-turn i s lt h e =
      let f : with_pool s.client s.barrier (pool_step max n (Queue.work_on i) s.queue) ≡ none =
        rw h at e in
      let g = with_pool-none s.client s.barrier _ f in ground (arith, g)

  rest-known :
      (i k : ℕ) (s : Service)
      → i < n
      → s.queue.workers i ≡ running (init_task k)
      → IsServing max n s.client s.barrier s.queue
      → k < max
  rest-known i k s lt w d =
      let c = responses_conserved job_of (is_unknown max n) n d.reached in
      let m = sum_below-le (carried job_of (is_unknown max n) n) n i s.queue.workers lt in
      ground (arith, c, m, d.known, ap (carried job_of (is_unknown max n) n) w)

  advance-none :
      (i k : ℕ) (a : Init.Action) (s : Service)
      → i < n
      → s.queue.workers i ≡ running (init_task k)
      → concerns k a ≡ true
      → next max n (advance i a) s ≡ none
      → Init.next max n a s.barrier ≡ none
  unfolding next advance_step
  advance-none i k a s lt w h e =
      let below : ltb i n ≡ true = ground arith in
      with_barrier-none s.client s.queue (Init.next max n a s.barrier) (rw (below, w, h) at e)

  rest-returned :
      (i k : ℕ) (s : Service)
      → i < n
      → s.queue.workers i ≡ running (init_task k)
      → AtRest s
      → IsInterrupted max s.barrier
      → IsServing max n s.client s.barrier s.queue
      → has_returned (s.barrier.tasks k) ≡ true
  rest-returned i k s lt w still v d = elim (Bool-cases (has_returned (s.barrier.tasks k))) [
    | inl h ↦ h
    | inr h ↦
        let (c, e) =
          step_of-enabled max n k (s.barrier.tasks k) s.barrier (rest-known i k s lt w d) refl
            (v.1 k) h in
        absurd (
          e (
            advance-none i k (step_of k (s.barrier.tasks k)) s lt w c (
              still (advance i (step_of k (s.barrier.tasks k))) refl
                (step_of-not_spurious i k (s.barrier.tasks k) (v.1 k)))))
  ]

  -- No worker is left inside a task.
  rest-loop :
      (i : ℕ) (s : Service)
      → i < n
      → AtRest s
      → IsInterrupted max s.barrier
      → IsServing max n s.client s.barrier s.queue
      → at_loop (s.queue.workers i) s.barrier ≡ true
  rest-loop i s lt still v d = go (s.queue.workers i) refl
    where
      go : (w : Worker Job) → s.queue.workers i ≡ w → at_loop w s.barrier ≡ true
      go waiting e = refl
      go (running (init_task k)) e = rest-returned i k s lt e still v d
      go (running (get_object request)) e = refl
      go notifying e = refl
      go stopped e = refl

  rest-idle :
      (i : ℕ) (s : Service)
      → i < n
      → AtRest s
      → IsInterrupted max s.barrier
      → IsServing max n s.client s.barrier s.queue
      → (s.queue.workers i ≡ waiting) × (s.queue.request_queue ≡ [])
  rest-idle i s lt still v d =
      turn-idle job_of n i (s.queue.workers i) s.queue d.reached refl d.open_pool
        (rest-popping s still d)
        (rest-turn i s lt (rest-loop i s lt still v d) (still (work_on i) refl refl))

  start_task-aborts :
      (k : ℕ) (t : Task) (b c : Barrier)
      → max ≤ b.init_counter
      → start_task max n k t b ≡ some c
      → c.tasks k ≡ aborted
  unfolding start_task
  start_task-aborts k queued b c m e = ground arith
  start_task-aborts k _ b c m e = cc

  start-aborts :
      (k : ℕ) (b c : Barrier)
      → max ≤ b.init_counter
      → Init.next max n (start k) b ≡ some c
      → c.tasks k ≡ aborted
  unfolding Init.next
  start-aborts k b c m e =
      let (lt, f) = allowed max n k _ c e in start_task-aborts k (b.tasks k) b c m f

  rest-answers :
      (s : Service)
      → 0 < n
      → AtRest s
      → IsInterrupted max s.barrier
      → IsServing max n s.client s.barrier s.queue
      → (w : Job → ℕ)
      → (weigh w s.queue.pushed ≡ weigh w s.queue.resp_queue + weigh w s.queue.popped)
        × ((wait_returns s.queue.work ≡ true) ⊎ (length s.queue.resp_queue ≡ 0))
  rest-answers s positive still v d w =
      let idles = λ (i : ℕ) (lt : i < n). rest-idle i s lt still v d in
      let ended = rest-popping s still d in
      (
        omega (
          arith,
          responses_conserved job_of w n d.reached,
          sum_below-eq-zero (carried job_of w n) n s.queue.workers
              (λ i lt. ap (carried job_of w n) ((idles i lt).0)),
          ap (weigh w) ((idles 0 positive).1),
          ap (held job_of w n) ended,
        ),
        elim (Bool-cases (ltb 0 (length s.queue.resp_queue))) [
          | inl h ↦ inl (
              queued-wait_returns job_of n d.reached ended
                (sum_below-eq-zero owes n s.queue.workers (λ i lt. ap owes ((idles i lt).0)))
                (ground arith))
          | inr h ↦ inr (ground arith)
        ],
      )

  -- ScheduleDownload does what it is for: with a pool of at least one thread and of at least
  -- `max_init_count`, in every state that can be reached in which the last queued job is a download
  -- and InitConnections is not being called: no task of InitConnections is blocked, and each that
  -- has not started can only abort. And if moreover no worker can take a step but by a spurious
  -- wake-up, and no call of ProcessResponses is to end, then every queued job has its response in
  -- the queue of the responses or in what ProcessResponses has returned: under every weight of jobs,
  -- these weigh as much as all that was queued. And `wait` returns, unless the queue of the
  -- responses is empty.
  pub downloads_answered :
      {s : Service}
      → 0 < n
      → max ≤ n
      → Reach max n s
      → is_initializing s.client ≡ false
      → ends_download false s.queue.pushed ≡ true
      → ((k : ℕ) → s.barrier.tasks k ≢ parked)
        × ((k : ℕ) (b : Barrier)
            → Init.next max n (start k) s.barrier ≡ some b
            → b.tasks k ≡ aborted)
        × (AtRest s
            → (w : Job → ℕ)
            → (weigh w s.queue.pushed ≡ weigh w s.queue.resp_queue + weigh w s.queue.popped)
              × ((wait_returns s.queue.work ≡ true) ⊎ (length s.queue.resp_queue ≡ 0)))
  downloads_answered {s} positive fits reach z l =
      let d = Reach-IsServing max n fits reach in
      let v = d.interrupted z l in
      (
        v.1,
        λ k b e. start-aborts k s.barrier b v.0 e,
        λ still w. rest-answers s positive still v d w,
      )
