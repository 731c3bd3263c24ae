-- ===== src/Download/Pool/Settled.antt =====
-- The responses that the queue of a Downloader holds (code/aws/downloader.cc).
use mathlib.Core.Path.{subst}
use mathlib.Core.Option.{some-injective}
use lab_cpp.Base.{
  ℕ, ◌+◌, ◌≤◌, ◌≡◌, refl, Bool, true, false, ◌==◌, Option, none, some, List, [], ◌∷◌, if◌then◌else◌,
  arith, weigh, weigh-append,
}
use lab_cpp.Async.Queue
use lab_cpp.Async.Queue.{
  Worker, waiting, running, notifying, stopped, Queue, push_request, pop_responses,
  consume_responses, push, pop, consume, turn, fetch, respond, construct,
}
use lab_cpp.Download.Init.{Barrier}
use lab_cpp.Download.Pool.{
  Job, init_task, get_object, Caller, Service, job_of, has_returned, at_loop, with_barrier,
  with_pool, pool_step,
}

-- 1 for a task that has not returned.
abbrev pub is_pending : Barrier → Job → ℕ
is_pending b (init_task k) = if has_returned (b.tasks k) then 0 else 1
is_pending b (get_object request) = 0

-- 1 for task `k`.
abbrev pub is_task : ℕ → Job → ℕ
is_task k (init_task j) = if k == j then 1 else 0
is_task k (get_object request) = 0

abbrev pub in_call : (Job → ℕ) → Option (List Job) → ℕ
in_call w none = 0
in_call w (some taken) = weigh w taken

-- Every response is that of a task that has returned.
abbrev pub IsSettled : Barrier → Queue Job Job → Type 0
IsSettled b q =
    weigh (is_pending b) q.resp_queue
      + in_call (is_pending b) q.popping
      + weigh (is_pending b) q.popped
    ≡ 0

pub weigh_mono :
    (v w : Job → ℕ)
    → ((job : Job) → v job ≤ w job)
    → (jobs : List Job) → weigh v jobs ≤ weigh w jobs
weigh_mono v w h [] = omega arith
weigh_mono v w h (job ∷ jobs) = omega (arith, h job, weigh_mono v w h jobs)

pub in_call_mono :
    (v w : Job → ℕ)
    → ((job : Job) → v job ≤ w job)
    → (p : Option (List Job)) → in_call v p ≤ in_call w p
in_call_mono v w h none = omega arith
in_call_mono v w h (some taken) = weigh_mono v w h taken

-- A task that has returned stays as it is.
unfoldable pub IsFinal : Barrier → Barrier → Type 0
IsFinal b c = (k : ℕ) → has_returned (b.tasks k) ≡ true → c.tasks k ≡ b.tasks k

pub is_pending_mono :
    (b c : Barrier) → IsFinal b c → (job : Job) → is_pending c job ≤ is_pending b job
unfolding IsFinal
is_pending_mono b c f (init_task k) = ground (arith, f k)
is_pending_mono b c f (get_object request) = omega arith

pub IsFinal-IsSettled :
    (b c : Barrier) (q : Queue Job Job) → IsFinal b c → IsSettled b q → IsSettled c q
IsFinal-IsSettled b c q f v =
    let m = is_pending_mono b c f in
    omega (
      arith,
      v,
      weigh_mono (is_pending c) (is_pending b) m q.resp_queue,
      in_call_mono (is_pending c) (is_pending b) m q.popping,
      weigh_mono (is_pending c) (is_pending b) m q.popped,
    )

-- What a step leaves of it.
unfoldable pub IsNext : Service → Caller → Barrier → Queue Job Job → Type 0
IsNext s client b q = IsFinal s.barrier b × IsSettled b q

module _ (max n : ℕ) where
  pub with_pool-IsNext :
      (s : Service) (client : Caller) (o : Option (Queue Job Job)) (t : Service)
      → ((q : Queue Job Job) → o ≡ some q → IsSettled s.barrier q)
      → with_pool client s.barrier o ≡ some t
      → IsNext s t.client t.barrier t.queue
  unfolding IsNext IsFinal
  with_pool-IsNext s client none t f e = cc
  with_pool-IsNext s client (some q) t f e =
      subst (λ u. IsNext s u.client u.barrier u.queue) (some-injective _ _ e)
        (λ k h. refl, f q refl)

  pub with_barrier-IsNext :
      (s : Service) (client : Caller) (o : Option Barrier) (t : Service)
      → ((b : Barrier) → o ≡ some b → IsFinal s.barrier b)
      → IsSettled s.barrier s.queue
      → with_barrier client s.queue o ≡ some t
      → IsNext s t.client t.barrier t.queue
  unfolding IsNext
  with_barrier-IsNext s client none t f v e = cc
  with_barrier-IsNext s client (some b) t f v e =
      subst (λ u. IsNext s u.client u.barrier u.queue) (some-injective _ _ e)
        (f b refl, IsFinal-IsSettled s.barrier b s.queue (f b refl) v)

  pub push-IsSettled :
      (job : Job) (b : Barrier) (q u : Queue Job Job)
      → IsSettled b q
      → pool_step max n (push_request job) q ≡ some u
      → IsSettled b u
  unfolding Queue.next push
  push-IsSettled job b q u v e = ground (arith, v)

  pub pop-IsSettled :
      (p : Option (List Job)) (b : Barrier) (q u : Queue Job Job)
      → q.popping ≡ p
      → IsSettled b q
      → pool_step max n pop_responses q ≡ some u
      → IsSettled b u
  unfolding Queue.next pop
  pop-IsSettled none b q u p v e = ground (arith, v)
  pop-IsSettled (some taken) b q u p v e = ground arith

  pub consume-IsSettled :
      (p : Option (List Job)) (b : Barrier) (q u : Queue Job Job)
      → q.popping ≡ p
      → IsSettled b q
      → pool_step max n consume_responses q ≡ some u
      → IsSettled b u
  unfolding Queue.next consume
  consume-IsSettled none b q u p v e = ground arith
  consume-IsSettled (some taken) b q u p v e =
      ground (arith, v, weigh-append (is_pending b) q.popped taken)

  pub fetch-IsSettled :
      (i : ℕ) (stop : Bool) (jobs : List Job) (b : Barrier) (q u : Queue Job Job)
      → IsSettled b q
      → fetch job_of i stop jobs q ≡ some u
      → IsSettled b u
  unfolding fetch
  fetch-IsSettled i false [] b q u v e = cc
  fetch-IsSettled i true [] b q u v e = ground (arith, v)
  fetch-IsSettled i stop (job ∷ rest) b q u v e = ground (arith, v)

  pub respond-IsSettled :
      (i : ℕ) (job : Job) (p : Option (List Job)) (b : Barrier) (q u : Queue Job Job)
      → q.popping ≡ p
      → IsSettled b q
      → is_pending b job ≡ 0
      → respond job_of i job p q ≡ some u
      → IsSettled b u
  unfolding respond
  respond-IsSettled i job (some taken) b q u p v z e = cc
  respond-IsSettled i job none b q u p v z e =
      ground (arith, v, z, weigh-append (is_pending b) q.resp_queue (job ∷ []))

  pub turn-IsSettled :
      (i : ℕ) (w : Worker Job) (b : Barrier) (q u : Queue Job Job)
      → IsSettled b q
      → at_loop w b ≡ true
      → turn job_of i w q ≡ some u
      → IsSettled b u
  unfolding turn
  turn-IsSettled i waiting b q u v h e = fetch-IsSettled i q.stop q.request_queue b q u v e
  turn-IsSettled i (running (init_task k)) b q u v h e =
      respond-IsSettled i (init_task k) q.popping b q u refl v (ground arith) e
  turn-IsSettled i (running (get_object r)) b q u v h e =
      respond-IsSettled i (get_object r) q.popping b q u refl v refl e
  turn-IsSettled i notifying b q u v h e = ground (arith, v)
  turn-IsSettled i stopped b q u v h e = cc
