-- ===== src/Download/Pool/Ends.antt =====
-- The work that is left to the threads of a Downloader (code/aws/downloader.cc) runs out.
use mathlib.Core.Path.{subst}
use mathlib.Core.Option.{some-injective}
use lab_cpp.Base.{
  List, ℕ, ◌+◌, ◌≤◌, ◌<◌, ◌≡◌, refl, Bool, true, false, Bool-cases, ltb, inl, inr, Option, none,
  some, arith,
}
use lab_cpp.Async.Queue
use lab_cpp.Async.Queue.{Worker, running, Queue, consume_responses, consume}
use lab_cpp.Async.Work.{queue_work, worker-turn, turn-work, turn-keeps, consume-work}
use lab_cpp.Download.Init
use lab_cpp.Download.Init.{Barrier}
use lab_cpp.Download.Pool.Interrupted.{IsInterrupted, task_steps, next-settles}
use lab_cpp.Download.Pool.Serving.{IsServing}
use lab_cpp.Download.Pool.Workers.{next-serves, Reach-IsServing}
use lab_cpp.Download.Pool.{
  Job, init_task, get_object, Caller, idle, processing, Service, Action, is_initializing,
  ends_download, end_responses, work_on, advance, job_of, concerns, at_loop, with_barrier,
  with_pool, pool_step, end_step, advance_step, next, Reach,
}

-- The steps that need no new call: those of the workers, and the end of ProcessResponses.
abbrev pub serves : Action → Bool
serves (work_on i) = true
serves (advance i a) = true
serves end_responses = true
serves _ = false

-- From one state to another in so many of these steps.
pub data Serves (max n : ℕ) : ℕ → Service → Service → Type 0 where
  rest : {s : Service} → Serves max n 0 s s
  serve :
      {k : ℕ} {s t u : Service}
      → Serves max n k s t
      → (a : Action) → serves a ≡ true
      → next max n a t ≡ some u
      → Serves max n (k + 1) s u

module _ (max n : ℕ) where
  abbrev pub service_work : Service → ℕ
  service_work s = task_steps max n s.barrier + queue_work job_of n s.queue

  -- Less is left after a step, and no task is blocked again.
  IsLess : Service → Caller → Barrier → Queue Job Job → Type 0
  IsLess s client b q =
      IsInterrupted max b
      × (task_steps max n b + queue_work job_of n q < service_work s)
      × (q.pushed ≡ s.queue.pushed)

  with_pool-IsLess :
      (s : Service) (client : Caller) (o : Option (Queue Job Job)) (t : Service)
      → IsInterrupted max s.barrier
      → ((q : Queue Job Job)
          → o ≡ some q
          → (queue_work job_of n q < queue_work job_of n s.queue) × (q.pushed ≡ s.queue.pushed))
      → with_pool client s.barrier o ≡ some t
      → IsLess s t.client t.barrier t.queue
  unfolding IsLess
  with_pool-IsLess s client none t v f e = cc
  with_pool-IsLess s client (some q) t v f e =
      subst (λ u. IsLess s u.client u.barrier u.queue) (some-injective _ _ e)
        (v, omega (arith, (f q refl).0), (f q refl).1)

  consume-less :
      (p : Option (List Job)) (q u : Queue Job Job)
      → q.popping ≡ p
      → pool_step max n consume_responses q ≡ some u
      → (queue_work job_of n u < queue_work job_of n q) × (u.pushed ≡ q.pushed)
  unfolding Queue.next
  consume-less none q u p e = let f : consume job_of none q ≡ some u = rw p at e in ground arith
  consume-less (some taken) q u p e =
      let (less, stop, popped, pushed) = consume-work job_of n taken q u p (rw p at e) in
      (less, pushed)

  end_step-IsLess :
      (client : Caller) (s t : Service)
      → end_step max n client s ≡ some t
      → IsInterrupted max s.barrier
      → IsLess s t.client t.barrier t.queue
  unfolding end_step
  end_step-IsLess processing s t e v =
      with_pool-IsLess s idle _ t v (λ u w. consume-less s.queue.popping s.queue u refl w) e
  end_step-IsLess _ s t e v = cc

  work_on-IsLess :
      (i : ℕ) (s t : Service)
      → with_pool s.client s.barrier (pool_step max n (Queue.work_on i) s.queue) ≡ some t
      → s.queue.stop ≡ false
      → IsInterrupted max s.barrier
      → IsLess s t.client t.barrier t.queue
  work_on-IsLess i s t e o v =
      with_pool-IsLess s s.client _ t v
        (λ u w.
          let (lt, turned) = worker-turn job_of n i s.queue u w in
          let (a, b, pushed, p) = turn-keeps job_of n i (s.queue.workers i) s.queue u turned in
          (turn-work job_of n i (s.queue.workers i) s.queue u lt refl o turned, pushed))
        e

  with_barrier-IsLess :
      (s : Service) (client : Caller) (o : Option Barrier) (t : Service)
      → ((b : Barrier)
          → o ≡ some b
          → IsInterrupted max b × (task_steps max n b < task_steps max n s.barrier))
      → with_barrier client s.queue o ≡ some t
      → IsLess s t.client t.barrier t.queue
  unfolding IsLess
  with_barrier-IsLess s client none t f e = cc
  with_barrier-IsLess s client (some b) t f e =
      subst (λ u. IsLess s u.client u.barrier u.queue) (some-injective _ _ e)
        ((f b refl).0, omega (arith, (f b refl).1), refl)

  advance_step-IsLess :
      (w : Worker Job) (a : Init.Action) (s t : Service)
      → advance_step max n w a s ≡ some t
      → IsInterrupted max s.barrier
      → IsLess s t.client t.barrier t.queue
  unfolding advance_step
  advance_step-IsLess (running (init_task k)) a s t e v = elim (Bool-cases (concerns k a)) [
    | inl h ↦
        with_barrier-IsLess s s.client _ t (λ b z. next-settles max n k a s.barrier b h z v)
          (rw h at e)
    | inr h ↦ cc
  ]
  advance_step-IsLess (running (get_object request)) a s t e v = cc
  advance_step-IsLess _ a s t e v = cc

  serve-IsLess :
      (a : Action) (s t : Service)
      → serves a ≡ true
      → next max n a s ≡ some t
      → s.queue.stop ≡ false
      → IsInterrupted max s.barrier
      → IsLess s t.client t.barrier t.queue
  unfolding next
  serve-IsLess (work_on i) s t z e o v = elim (Bool-cases (at_loop (s.queue.workers i) s.barrier)) [
    | inl h ↦ work_on-IsLess i s t (rw h at e) o v
    | inr h ↦ let f : none ≡ some t = rw h at e in cc
  ]
  serve-IsLess (advance i a) s t z e o v = elim (Bool-cases (ltb i n)) [
    | inl h ↦ advance_step-IsLess (s.queue.workers i) a s t (rw h at e) v
    | inr h ↦ let f : none ≡ some t = rw h at e in cc
  ]
  serve-IsLess end_responses s t z e o v = end_step-IsLess s.client s t e v
  serve-IsLess _ s t z e o v = cc

  Serves-less :
      {k : ℕ} {s t : Service}
      → max ≤ n
      → IsServing max n s.client s.barrier s.queue
      → IsInterrupted max s.barrier
      → Serves max n k s t
      → IsServing max n t.client t.barrier t.queue
        × IsInterrupted max t.barrier
        × (service_work t + k ≤ service_work s)
  unfolding IsLess
  Serves-less fits d v rest = (d, v, omega arith)
  Serves-less fits d v (serve {k} {s} {t} {u} run a z e) =
      let (now, free, less) = Serves-less fits d v run in
      let (free2, less2, same) = serve-IsLess a t u z e now.open_pool free in
      (next-serves max n a t u fits e now, free2, omega (arith, less, less2))

  -- The threads of a Downloader do not go on for ever: with a pool of at least `max_init_count`
  -- threads, from every state that can be reached in which the last queued job is a download and
  -- InitConnections is not being called, the workers, spurious wake-ups among their steps, and
  -- the end of ProcessResponses take at most four steps for each task of InitConnections, five
  -- for each job in the queue, those that its worker owes for each job that is being run, two for
  -- each response, and one for a call of ProcessResponses.
  pub serving_ends :
      {k : ℕ} {s t : Service}
      → max ≤ n
      → Reach max n s
      → is_initializing s.client ≡ false
      → ends_download false s.queue.pushed ≡ true
      → Serves max n k s t
      → k ≤ service_work s
  serving_ends fits reach z l run =
      let d = Reach-IsServing max n fits reach in
      let (now, free, less) = Serves-less fits d (d.interrupted z l) run in omega (arith, less)
