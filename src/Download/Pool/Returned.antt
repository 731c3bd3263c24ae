-- ===== src/Download/Pool/Returned.antt =====
-- The responses of the tasks of InitConnections (code/aws/downloader.cc) are final.
use mathlib.Core.Path.{subst, ap}
use mathlib.Core.Option.{some-injective}
use lab_cpp.Base.{
  ℕ, ◌+◌, ◌<◌, ◌≡◌, refl, true, Bool-cases, ltb, inl, inr, Option, none, some, ◌==◌, List, [], ◌∷◌,
  arith, weigh,
}
use lab_cpp.Base.Status.{Result}
use lab_cpp.Async.Queue
use lab_cpp.Async.Queue.{
  Worker, waiting, running, notifying, stopped, Queue, push_request, pop_responses,
  consume_responses, push, pop, consume, turn, fetch, respond, construct,
}
use lab_cpp.Async.Work.{worker-turn}
use lab_cpp.Download.Fetch.{DownloadRequest, DownloadResponse}
use lab_cpp.Download.Init
use lab_cpp.Download.Init.{Barrier, cancel, notify_cancelled}
use lab_cpp.Download.Pool.Tasks.{next-forward, wake-returned, cancel-tasks}
use lab_cpp.Download.Pool.{
  Job, init_task, get_object, Caller, initializing, idle, interrupting, enqueuing, processing,
  Service, Action, is_init, begin_init, begin_init_step, push_init, interrupt, enqueue, schedule,
  begin_responses, end_responses, work_on, advance, job_of, concerns, has_returned, returned,
  returned_init, at_loop, with_pool, pool_step, push_init_step, schedule_step, interrupt_step,
  enqueue_step, begin_step, end_step, advance_step, next, Reach, create, later,
}
use lab_cpp.Download.Pool.Settled.{
  is_pending, is_task, IsSettled, IsFinal, IsFinal-IsSettled, IsNext, with_pool-IsNext,
  with_barrier-IsNext, push-IsSettled, pop-IsSettled, consume-IsSettled, turn-IsSettled,
}

module _ (max n : ℕ) where
  begin_init_step-IsNext :
      (client : Caller) (s t : Service)
      → begin_init_step client s ≡ some t
      → IsSettled s.barrier s.queue
      → IsNext s t.client t.barrier t.queue
  unfolding begin_init_step IsNext IsFinal
  begin_init_step-IsNext idle s t e v = elim (Bool-cases (weigh is_init s.queue.pushed == 0)) [
    | inl h ↦
        subst (λ u. IsNext s u.client u.barrier u.queue) (some-injective _ _ (rw h at e))
          (
            λ k h. refl,
            IsFinal-IsSettled s.barrier (record s.barrier { init_counter = 0 }) s.queue
                (λ k h. refl) v,
          )
    | inr h ↦ let f : none ≡ some t = rw h at e in cc
  ]
  begin_init_step-IsNext _ s t e v = cc

  push_init_step-IsNext :
      (client : Caller) (s t : Service)
      → s.client ≡ client
      → push_init_step max n client s ≡ some t
      → IsSettled s.barrier s.queue
      → IsNext s t.client t.barrier t.queue
  unfolding push_init_step IsNext IsFinal
  push_init_step-IsNext (initializing k) s t c e v = elim (Bool-cases (ltb k max)) [
    | inl h ↦
        with_pool-IsNext max n s _ _ t
          (λ u w. push-IsSettled max n (init_task k) s.barrier s.queue u v w) (rw h at e)
    | inr h ↦
        subst (λ u. IsNext s u.client u.barrier u.queue) (some-injective _ _ (rw h at e))
          (λ k h. refl, v)
  ]
  push_init_step-IsNext _ s t c e v = cc

  schedule_step-IsNext :
      (request : DownloadRequest) (client : Caller) (s t : Service)
      → schedule_step max n request client s ≡ some t
      → IsSettled s.barrier s.queue
      → IsNext s t.client t.barrier t.queue
  unfolding schedule_step Init.next IsFinal
  schedule_step-IsNext request idle s t e v =
      with_barrier-IsNext max n s _ _ t (λ b w k h. cancel-tasks max n s.barrier b w k) v e
  schedule_step-IsNext request _ s t e v = cc

  interrupt_step-IsNext :
      (client : Caller) (s t : Service)
      → interrupt_step max n client s ≡ some t
      → IsSettled s.barrier s.queue
      → IsNext s t.client t.barrier t.queue
  unfolding interrupt_step Init.next IsFinal
  interrupt_step-IsNext (interrupting request) s t e v =
      with_barrier-IsNext max n s _ _ t
        (λ b w k h. ground (arith, wake-returned (s.barrier.tasks k) h)) v e
  interrupt_step-IsNext _ s t e v = cc

  enqueue_step-IsNext :
      (client : Caller) (s t : Service)
      → enqueue_step max n client s ≡ some t
      → IsSettled s.barrier s.queue
      → IsNext s t.client t.barrier t.queue
  unfolding enqueue_step
  enqueue_step-IsNext (enqueuing request) s t e v =
      with_pool-IsNext max n s _ _ t
        (λ u w. push-IsSettled max n (get_object request) s.barrier s.queue u v w) e
  enqueue_step-IsNext _ s t e v = cc

  begin_step-IsNext :
      (client : Caller) (s t : Service)
      → begin_step max n client s ≡ some t
      → IsSettled s.barrier s.queue
      → IsNext s t.client t.barrier t.queue
  unfolding begin_step
  begin_step-IsNext idle s t e v =
      with_pool-IsNext max n s _ _ t
        (λ u w. pop-IsSettled max n s.queue.popping s.barrier s.queue u refl v w) e
  begin_step-IsNext _ s t e v = cc

  end_step-IsNext :
      (client : Caller) (s t : Service)
      → end_step max n client s ≡ some t
      → IsSettled s.barrier s.queue
      → IsNext s t.client t.barrier t.queue
  unfolding end_step
  end_step-IsNext processing s t e v =
      with_pool-IsNext max n s _ _ t
        (λ u w. consume-IsSettled max n s.queue.popping s.barrier s.queue u refl v w) e
  end_step-IsNext _ s t e v = cc

  work_on-IsNext :
      (i : ℕ) (s t : Service)
      → at_loop (s.queue.workers i) s.barrier ≡ true
      → with_pool s.client s.barrier (pool_step max n (Queue.work_on i) s.queue) ≡ some t
      → IsSettled s.barrier s.queue
      → IsNext s t.client t.barrier t.queue
  work_on-IsNext i s t h e v =
      with_pool-IsNext max n s _ _ t
        (λ u w.
          let (lt, turned) = worker-turn job_of n i s.queue u w in
          turn-IsSettled max n i (s.queue.workers i) s.barrier s.queue u v h turned)
        e

  advance_step-IsNext :
      (w : Worker Job) (a : Init.Action) (s t : Service)
      → advance_step max n w a s ≡ some t
      → IsSettled s.barrier s.queue
      → IsNext s t.client t.barrier t.queue
  unfolding advance_step IsFinal
  advance_step-IsNext (running (init_task k)) a s t e v = elim (Bool-cases (concerns k a)) [
    | inl h ↦
        with_barrier-IsNext max n s _ _ t (λ b z. (next-forward max n k a s.barrier b h z).1) v
          (rw h at e)
    | inr h ↦ cc
  ]
  advance_step-IsNext (running (get_object request)) a s t e v = cc
  advance_step-IsNext _ a s t e v = cc

  next-keeps :
      (a : Action) (s t : Service)
      → next max n a s ≡ some t
      → IsSettled s.barrier s.queue
      → IsNext s t.client t.barrier t.queue
  unfolding next
  next-keeps begin_init s t e v = begin_init_step-IsNext s.client s t e v
  next-keeps push_init s t e v = push_init_step-IsNext s.client s t refl e v
  next-keeps (schedule request) s t e v = schedule_step-IsNext request s.client s t e v
  next-keeps interrupt s t e v = interrupt_step-IsNext s.client s t e v
  next-keeps enqueue s t e v = enqueue_step-IsNext s.client s t e v
  next-keeps begin_responses s t e v = begin_step-IsNext s.client s t e v
  next-keeps end_responses s t e v = end_step-IsNext s.client s t e v
  next-keeps (work_on i) s t e v = elim (Bool-cases (at_loop (s.queue.workers i) s.barrier)) [
    | inl h ↦ work_on-IsNext i s t h (rw h at e) v
    | inr h ↦ let f : none ≡ some t = rw h at e in cc
  ]
  next-keeps (advance i a) s t e v = elim (Bool-cases (ltb i n)) [
    | inl h ↦ advance_step-IsNext (s.queue.workers i) a s t (rw h at e) v
    | inr h ↦ let f : none ≡ some t = rw h at e in cc
  ]

  Reach-IsSettled : {s : Service} → Reach max n s → IsSettled s.barrier s.queue
  unfolding construct IsNext
  Reach-IsSettled create = refl
  Reach-IsSettled (later {s} {t} reach a e) = (next-keeps a s t e (Reach-IsSettled reach)).1

  answered-returned :
      (k : ℕ) (b : Barrier) (jobs : List Job)
      → 0 < weigh (is_task k) jobs
      → weigh (is_pending b) jobs ≡ 0
      → has_returned (b.tasks k) ≡ true
  answered-returned k b [] l v = absurd (omega (arith, l))
  answered-returned k b (init_task j ∷ jobs) l v = elim (Bool-cases (has_returned (b.tasks k))) [
    | inl h ↦ h
    | inr h ↦ ground (arith, answered-returned k b jobs)
  ]
  answered-returned k b (get_object request ∷ jobs) l v =
      answered-returned k b jobs (omega (arith, l)) (omega (arith, v))

  -- A response is final: in every state that can be reached, a task of InitConnections whose response
  -- is in the queue of the responses or has been returned by ProcessResponses has returned, and no
  -- further step of any thread changes what it has returned.
  pub responses_final :
      {s t : Service}
      → Reach max n s
      → (a : Action) → next max n a s ≡ some t
      → (fetched : DownloadRequest → Option (Result DownloadResponse)) (k : ℕ)
      → 0 < weigh (is_task k) s.queue.resp_queue + weigh (is_task k) s.queue.popped
      → (has_returned (s.barrier.tasks k) ≡ true)
        × (returned fetched t.barrier (init_task k) ≡ returned fetched s.barrier (init_task k))
  unfolding returned IsNext IsFinal
  responses_final {s} {t} reach a e fetched k l =
      let v = Reach-IsSettled reach in
      let h : has_returned (s.barrier.tasks k) ≡ true =
        elim (Bool-cases (ltb 0 (weigh (is_task k) s.queue.resp_queue))) [
          | inl m ↦
              answered-returned k s.barrier s.queue.resp_queue (ground arith) (omega (arith, v))
          | inr m ↦ answered-returned k s.barrier s.queue.popped (ground arith) (omega (arith, v))
        ] in
      (h, ap (λ t. some (returned_init t)) ((next-keeps a s t e v).0 k h))
