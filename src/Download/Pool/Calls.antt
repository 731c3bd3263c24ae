-- ===== src/Download/Pool/Calls.antt =====
-- Each step of the Downloader's calls and workers keeps what holds of it (code/aws/downloader.cc).
use mathlib.Core.Path.{subst}
use mathlib.Core.Option.{some-injective}
use lab_cpp.Base.{
  ℕ, suc, ◌≤◌, ◌≡◌, refl, false, ◌∙◌, Bool-cases, ltb, ◌==◌, weigh, inl, inr, Option, none, some,
  List, [], ◌∷◌, ◌++◌, arith, weigh-append,
}
use lab_cpp.Async.Queue
use lab_cpp.Async.Queue.{
  Worker, running, waiting, Queue, push_request, pop_responses, consume_responses, construct, push,
  pop, consume,
}
use lab_cpp.Download.Fetch.{DownloadRequest}
use lab_cpp.Download.Init
use lab_cpp.Download.Init.{Barrier, cancel, notify_cancelled, parked}
use lab_cpp.Download.Pool.Interrupted.{cancel-reaches, notify_cancelled-interrupts}
use lab_cpp.Download.Pool.Tasks.{cancel-tasks}
use lab_cpp.Download.Pool.{
  Job, init_task, get_object, Caller, initializing, idle, interrupting, enqueuing, processing,
  Service, is_init, begin_init_step, pool_step, push_init_step, schedule_step, interrupt_step,
  enqueue_step, begin_step, end_step,
}
use lab_cpp.Download.Pool.Serving.{
  is_unknown, IsServing, ends_download-init, with_pool-serves, with_barrier-serves,
}

module _ (max n : ℕ) where
  pub begin_init_step-serves :
      (client : Caller) (s t : Service)
      → begin_init_step client s ≡ some t
      → IsServing max n client s.barrier s.queue
      → IsServing max n t.client t.barrier t.queue
  unfolding begin_init_step
  begin_init_step-serves idle s t e d = elim (Bool-cases (weigh is_init s.queue.pushed == 0)) [
    | inl h ↦
        subst (λ u. IsServing max n u.client u.barrier u.queue) (some-injective _ _ (rw h at e))
          (record {
            reached = d.reached;
            open_pool = d.open_pool;
            known = d.known;
            free = λ _. d.free (λ z. cc);
            cancelled = λ r z. cc;
            freed = λ r z. cc;
            fresh = d.fresh;
            starting = λ k z l. (ground arith, ground arith);
            interrupted = λ z l. cc;
          })
    | inr h ↦ let f : none ≡ some t = rw h at e in cc
  ]
  begin_init_step-serves _ s t e d = cc

  pub push-parts :
      (job : Job) (q u : Queue Job Job)
      → pool_step max n (push_request job) q ≡ some u
      → (u.stop ≡ q.stop) × (u.popping ≡ q.popping) × (u.pushed ≡ q.pushed ++ job ∷ [])
  unfolding Queue.next push
  push-parts job q u e = ground arith

  pub pop-parts :
      (q u : Queue Job Job)
      → q.popping ≡ none
      → pool_step max n pop_responses q ≡ some u
      → (u.stop ≡ q.stop) × (u.pushed ≡ q.pushed)
  unfolding Queue.next pop
  pop-parts q u p e = ground arith

  pub consume-parts :
      (p : Option (List Job)) (q u : Queue Job Job)
      → q.popping ≡ p
      → pool_step max n consume_responses q ≡ some u
      → (u.stop ≡ q.stop) × (u.pushed ≡ q.pushed) × (u.popping ≡ none)
  unfolding Queue.next consume
  consume-parts none q u p e = ground arith
  consume-parts (some taken) q u p e = ground arith

  pub push_init_step-serves :
      (client : Caller) (s t : Service)
      → s.client ≡ client
      → push_init_step max n client s ≡ some t
      → IsServing max n client s.barrier s.queue
      → IsServing max n t.client t.barrier t.queue
  unfolding push_init_step
  push_init_step-serves (initializing k) s t c e d = elim (Bool-cases (ltb k max)) [
    | inl h ↦
        with_pool-serves max n (initializing (suc k)) s.barrier _ t
          (λ u w.
            let (a, p, j) = push-parts (init_task k) s.queue u w in
            record {
              reached = Queue.later d.reached (push_request (init_task k)) w;
              open_pool = ground (arith, a, d.open_pool);
              known = rw j (
                  ground (
                    arith,
                    d.known,
                    weigh-append (is_unknown max n) s.queue.pushed (init_task k ∷ []),
                  ));
              free = λ _. ground (arith, p, d.free (λ z. cc));
              cancelled = λ r z. cc;
              freed = λ r z. cc;
              fresh = λ z. absurd (
                  omega (arith, rw j at z, weigh-append is_init s.queue.pushed (init_task k ∷ [])));
              starting =
                  λ i z l. let f = rw (j, ends_download-init false k s.queue.pushed) at l in cc;
              interrupted = λ z l. cc;
            })
          (rw h at e)
    | inr h ↦
        subst (λ u. IsServing max n u.client u.barrier u.queue) (some-injective _ _ (rw h at e))
          (record {
            reached = d.reached;
            open_pool = d.open_pool;
            known = d.known;
            free = λ _. d.free (λ z. cc);
            cancelled = λ r z. cc;
            freed = λ r z. cc;
            fresh = d.fresh;
            starting = λ i z l. cc;
            interrupted = λ z l.
                let (first, none_yet) = d.starting k refl l in
                (ground (arith, first), λ i. ground (arith, d.fresh none_yet i));
          })
  ]
  push_init_step-serves _ s t c e d = cc

  module _ (fits : max ≤ n) where
    pub schedule_step-serves :
        (request : DownloadRequest) (client : Caller) (s t : Service)
        → schedule_step max n request client s ≡ some t
        → IsServing max n client s.barrier s.queue
        → IsServing max n t.client t.barrier t.queue
    unfolding schedule_step Init.next
    schedule_step-serves request idle s t e d =
        with_barrier-serves max n (interrupting request) s.queue _ t
          (λ b w. record {
            reached = d.reached;
            open_pool = d.open_pool;
            known = d.known;
            free = λ _. d.free (λ z. cc);
            cancelled = λ r z. cancel-reaches max n s.barrier b fits w;
            freed = λ r z. cc;
            interrupted = λ z l.
                (cancel-reaches max n s.barrier b fits w, ground (arith, (d.interrupted refl l).1));
            fresh = λ z j. cancel-tasks max n s.barrier b w j ∙ d.fresh z j;
            starting = λ i z l. cc;
          })
          e
    schedule_step-serves request _ s t e d = cc

  pub interrupt_step-serves :
      (client : Caller) (s t : Service)
      → interrupt_step max n client s ≡ some t
      → IsServing max n client s.barrier s.queue
      → IsServing max n t.client t.barrier t.queue
  unfolding interrupt_step Init.next
  interrupt_step-serves (interrupting request) s t e d =
      with_barrier-serves max n (enqueuing request) s.queue _ t
        (λ b w.
          let now = notify_cancelled-interrupts max n s.barrier b (d.cancelled request refl) w in
          record {
            reached = d.reached;
            open_pool = d.open_pool;
            known = d.known;
            free = λ _. d.free (λ z. cc);
            cancelled = λ r z. now.0;
            freed = λ r z. now;
            fresh = λ z j. ground (arith, d.fresh z j);
            starting = λ i z l. cc;
            interrupted = λ z l. now;
          })
        e
  interrupt_step-serves _ s t e d = cc

  pub enqueue_step-serves :
      (client : Caller) (s t : Service)
      → enqueue_step max n client s ≡ some t
      → IsServing max n client s.barrier s.queue
      → IsServing max n t.client t.barrier t.queue
  unfolding enqueue_step
  enqueue_step-serves (enqueuing request) s t e d =
      with_pool-serves max n idle s.barrier _ t
        (λ u w.
          let (a, p, j) = push-parts (get_object request) s.queue u w in
          record {
            reached = Queue.later d.reached (push_request (get_object request)) w;
            open_pool = ground (arith, a, d.open_pool);
            known = rw j (
                omega (
                  arith,
                  d.known,
                  weigh-append (is_unknown max n) s.queue.pushed (get_object request ∷ []),
                ));
            free = λ _. ground (arith, p, d.free (λ z. cc));
            cancelled = λ r z. cc;
            freed = λ r z. cc;
            fresh = λ z. d.fresh (
                omega (
                  arith,
                  rw j at z,
                  weigh-append is_init s.queue.pushed (get_object request ∷ []),
                ));
            starting = λ i z l. cc;
            interrupted = λ z l. d.freed request refl;
          })
        e
  enqueue_step-serves _ s t e d = cc

  pub begin_step-serves :
      (client : Caller) (s t : Service)
      → begin_step max n client s ≡ some t
      → IsServing max n client s.barrier s.queue
      → IsServing max n t.client t.barrier t.queue
  unfolding begin_step
  begin_step-serves idle s t e d =
      with_pool-serves max n processing s.barrier _ t
        (λ u w.
          let (a, j) = pop-parts s.queue u (d.free (λ z. cc)) w in
          record {
            reached = Queue.later d.reached pop_responses w;
            open_pool = ground (arith, a, d.open_pool);
            known = rw j d.known;
            free = λ z. absurd (z refl);
            cancelled = λ r z. cc;
            freed = λ r z. cc;
            fresh = rw j d.fresh;
            starting = λ i z l. cc;
            interrupted = λ z l. d.interrupted refl (rw j at l);
          })
        e
  begin_step-serves _ s t e d = cc

  pub end_step-serves :
      (client : Caller) (s t : Service)
      → end_step max n client s ≡ some t
      → IsServing max n client s.barrier s.queue
      → IsServing max n t.client t.barrier t.queue
  unfolding end_step
  end_step-serves processing s t e d =
      with_pool-serves max n idle s.barrier _ t
        (λ u w.
          let (a, j, p) = consume-parts s.queue.popping s.queue u refl w in
          record {
            reached = Queue.later d.reached consume_responses w;
            open_pool = ground (arith, a, d.open_pool);
            known = rw j d.known;
            free = λ z. p;
            cancelled = λ r z. cc;
            freed = λ r z. cc;
            fresh = rw j d.fresh;
            starting = λ i z l. cc;
            interrupted = λ z l. d.interrupted refl (rw j at l);
          })
        e
  end_step-serves _ s t e d = cc
