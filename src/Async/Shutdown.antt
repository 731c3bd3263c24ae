-- ===== src/Async/Shutdown.antt =====
-- The destructor of AsyncQueue, and the progress of its workers (code/util/async_queue.h).
use lab_cpp.Base.{
  ℕ, ◌<◌, ◌≡◌, ◌≢◌, refl, Bool, true, false, Bool-cases, ltb, inl, inr, Option, none, some, List,
  [], ◌∷◌, if◌then◌else◌, arith,
}
use lab_cpp.Async.Queue.{
  Worker, waiting, running, notifying, stopped, Queue, Action, push_request, work_on, pop_responses,
  consume_responses, destroy, construct, turn, fetch, next, Reach, start, later,
}

module _ {Req Resp : Type 0} (answer : Req → Resp) (n : ℕ) where
  -- A worker has returned only after the destructor has begun and with no request left.
  abbrev pub IsDrained : Queue Req Resp → Type 0
  IsDrained q = (i : ℕ) → q.workers i ≡ stopped → (q.stop ≡ true) × (q.request_queue ≡ [])

  fetch-IsDrained :
      (i : ℕ) (stop : Bool) (reqs : List Req) (q r : Queue Req Resp)
      → q.workers i ≡ waiting
      → q.stop ≡ stop
      → q.request_queue ≡ reqs
      → fetch answer i stop reqs q ≡ some r
      → IsDrained q
      → IsDrained r
  unfolding fetch
  fetch-IsDrained i false [] q r e s k t d j h = cc
  fetch-IsDrained i true [] q r e s k t d j h = ground (arith, d j)
  fetch-IsDrained i stop (task ∷ rest) q r e s k t d j h = ground (arith, d j)

  turn-IsDrained :
      (i : ℕ) (u : Worker Req) (p : Option (List Resp)) (q r : Queue Req Resp)
      → q.workers i ≡ u
      → q.popping ≡ p
      → turn answer i u q ≡ some r
      → IsDrained q
      → IsDrained r
  unfolding turn
  turn-IsDrained i waiting p q r e k t d j h =
      fetch-IsDrained i q.stop q.request_queue q r e refl refl t d j h
  turn-IsDrained i (running request) none q r e k t d j h = ground (arith, d j)
  turn-IsDrained i (running request) (some rs) q r e k t d j h = ground (arith, d j)
  turn-IsDrained i notifying p q r e k t d j h = ground (arith, d j)
  turn-IsDrained i stopped p q r e k t d j h = cc

  next-IsDrained :
      (a : Action Req) (q r : Queue Req Resp)
      → next answer n a q ≡ some r
      → IsDrained q
      → IsDrained r
  unfolding next
  next-IsDrained (push_request request) q r t d j h = ground (arith, d j)
  next-IsDrained (work_on i) q r t d j h = elim (Bool-cases (ltb i n)) [
    | inl e ↦ turn-IsDrained i (q.workers i) q.popping q r refl refl (ground arith) d j h
    | inr e ↦ ground arith
  ]
  next-IsDrained pop_responses q r t d j h = ground (arith, d j)
  next-IsDrained consume_responses q r t d j h = ground (arith, d j)
  next-IsDrained destroy q r t d j h = ground (arith, d j)

  -- In every state that a pool can reach, a worker that has returned has left no request behind,
  -- and the destructor has begun.
  pub stopped_drained :
      {q : Queue Req Resp}
      → Reach answer n q
      → (i : ℕ) → q.workers i ≡ stopped
      → (q.stop ≡ true) × (q.request_queue ≡ [])
  unfolding construct
  stopped_drained start i e = cc
  stopped_drained (later {q} {r} reach a t) i e = next-IsDrained a q r t (stopped_drained reach) i e

  -- Progress: in every state that a pool can reach, while there is a request in the queue and no call
  -- of PopResponses is under way, no worker is blocked, and none has returned.
  pub workers_progress :
      {q : Queue Req Resp}
      → Reach answer n q
      → q.request_queue ≢ []
      → q.popping ≡ none
      → (i : ℕ) → i < n
      → next answer n (work_on i) q ≢ none
  unfolding next
  workers_progress {q} reach left free i h = go (q.workers i) q.request_queue refl refl
    where
      go :
          (u : Worker Req) (reqs : List Req)
          → q.workers i ≡ u
          → q.request_queue ≡ reqs
          → (if ltb i n then turn answer i (q.workers i) q else none) ≢ none
      go u [] e k = absurd (left k)
      go waiting (task ∷ rest) e k = ground arith
      go (running request) (task ∷ rest) e k = ground arith
      go notifying (task ∷ rest) e k = ground arith
      go stopped (task ∷ rest) e k = ground (arith, stopped_drained reach i e)
