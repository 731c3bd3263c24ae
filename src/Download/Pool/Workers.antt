-- ===== src/Download/Pool/Workers.antt =====
-- Each step of the workers keeps what holds of the Downloader, and so does every step (code/aws/downloader.cc).
use lab_cpp.Base.{ℕ, ◌≤◌, ◌<◌, ◌≡◌, weigh, refl, Bool-cases, ltb, inl, inr, none, some, arith}
use lab_cpp.Async.Queue
use lab_cpp.Async.Queue.{
  Worker, running, waiting, Queue, push_request, pop_responses, consume_responses, construct, push,
  pop, consume,
}
use lab_cpp.Base.Threads.{sum_below-le}
use lab_cpp.Async.Conservation.{carried, responses_conserved}
use lab_cpp.Async.Work.{worker-turn, turn-keeps}
use lab_cpp.Download.Init
use lab_cpp.Download.Init.{Barrier, init_connections, cancel, notify_cancelled, parked}
use lab_cpp.Download.Pool.Interrupted.{IsInterrupted, next-settles}
use lab_cpp.Download.Pool.Tasks.{next-forward}
use lab_cpp.Download.Pool.{
  Job, init_task, get_object, Service, Action, is_init, begin_init, push_init, interrupt, enqueue,
  schedule, begin_responses, end_responses, work_on, advance, job_of, concerns, at_loop, with_pool,
  pool_step, ends_download, advance_step, next, Reach, create, later,
}
use lab_cpp.Download.Pool.Serving.{IsServing, with_pool-serves, with_barrier-serves}
use lab_cpp.Download.Pool.Calls.{
  begin_init_step-serves, push_init_step-serves, schedule_step-serves, interrupt_step-serves,
  enqueue_step-serves, begin_step-serves, end_step-serves,
}

module _ (max n : ℕ) where
  pub work_on-serves :
      (i : ℕ) (s t : Service)
      → with_pool s.client s.barrier (pool_step max n (Queue.work_on i) s.queue) ≡ some t
      → IsServing max n s.client s.barrier s.queue
      → IsServing max n t.client t.barrier t.queue
  work_on-serves i s t e d =
      with_pool-serves max n s.client s.barrier _ t
        (λ u w.
          let (lt, turned) = worker-turn job_of n i s.queue u w in
          let (a, o, j, p) = turn-keeps job_of n i (s.queue.workers i) s.queue u turned in
          record {
            reached = Queue.later d.reached (Queue.work_on i) w;
            open_pool = ground (arith, a, d.open_pool);
            known = rw j d.known;
            free = rw p d.free;
            cancelled = d.cancelled;
            freed = d.freed;
            fresh = rw j d.fresh;
            starting = rw j d.starting;
            interrupted = rw j d.interrupted;
          })
        e

  pub advance_step-serves :
      (w : Worker Job) (a : Init.Action) (s t : Service)
      → advance_step max n w a s ≡ some t
      → (0 < carried job_of is_init n w → 0 < weigh is_init s.queue.pushed)
      → IsServing max n s.client s.barrier s.queue
      → IsServing max n t.client t.barrier t.queue
  unfolding advance_step
  advance_step-serves (running (init_task k)) a s t e m d = elim (Bool-cases (concerns k a)) [
    | inl h ↦
        with_barrier-serves max n s.client s.queue _ t
          (λ b z.
            let further = (next-forward max n k a s.barrier b h z).0 in
            let settled : IsInterrupted max s.barrier → IsInterrupted max b =
              λ v. (next-settles max n k a s.barrier b h z v).0 in
            record {
              reached = d.reached;
              open_pool = d.open_pool;
              known = d.known;
              free = d.free;
              cancelled = λ r c. omega (arith, d.cancelled r c, further);
              freed = λ r c. settled (d.freed r c);
              fresh = λ z. absurd (omega (arith, m (omega arith), z));
              starting = d.starting;
              interrupted = λ z l. settled (d.interrupted z l);
            })
          (rw h at e)
    | inr h ↦ cc
  ]
  advance_step-serves (running (get_object request)) a s t e m d = cc
  advance_step-serves _ a s t e m d = cc

  pub next-serves :
      (a : Action) (s t : Service)
      → max ≤ n
      → next max n a s ≡ some t
      → IsServing max n s.client s.barrier s.queue
      → IsServing max n t.client t.barrier t.queue
  unfolding next
  next-serves begin_init s t fits e d = begin_init_step-serves max n s.client s t e d
  next-serves push_init s t fits e d = push_init_step-serves max n s.client s t refl e d
  next-serves (schedule request) s t fits e d =
      schedule_step-serves max n fits request s.client s t e d
  next-serves interrupt s t fits e d = interrupt_step-serves max n s.client s t e d
  next-serves enqueue s t fits e d = enqueue_step-serves max n s.client s t e d
  next-serves begin_responses s t fits e d = begin_step-serves max n s.client s t e d
  next-serves end_responses s t fits e d = end_step-serves max n s.client s t e d
  next-serves (work_on i) s t fits e d = elim (Bool-cases (at_loop (s.queue.workers i) s.barrier)) [
    | inl h ↦ work_on-serves i s t (rw h at e) d
    | inr h ↦ let f : none ≡ some t = rw h at e in cc
  ]
  next-serves (advance i a) s t fits e d = elim (Bool-cases (ltb i n)) [
    | inl h ↦
        advance_step-serves (s.queue.workers i) a s t (rw h at e)
          (λ l.
            let c = responses_conserved job_of is_init n d.reached in
            let m = sum_below-le (carried job_of is_init n) n i s.queue.workers (ground arith) in
            omega (arith, c, m, l))
          d
    | inr h ↦ let f : none ≡ some t = rw h at e in cc
  ]

  pub Reach-IsServing :
      {s : Service} → max ≤ n → Reach max n s → IsServing max n s.client s.barrier s.queue
  unfolding construct ends_download init_connections
  Reach-IsServing fits create = record {
    reached = Queue.start;
    open_pool = refl;
    known = refl;
    free = λ z. refl;
    cancelled = λ r z. cc;
    freed = λ r z. cc;
    fresh = λ z j. refl;
    starting = λ i z l. cc;
    interrupted = λ z l. cc;
  }
  Reach-IsServing fits (later {s} {t} reach a e) =
      next-serves a s t fits e (Reach-IsServing fits reach)
