-- ===== src/Async/Conservation.antt =====
-- No response of a pool is lost, invented or doubled (code/util/async_queue.h).
use lab_cpp.Base.{
  ℕ, ◌+◌, ◌<◌, ◌≡◌, refl, Bool, true, false, Bool-cases, ltb, inl, inr, Option, none, some, List,
  [], ◌∷◌, arith, weigh, weigh-append,
}
use lab_cpp.Base.Threads.{sum_below, sum_below-move, sum_below-eq-zero}
use lab_cpp.Async.Queue.{
  Worker, waiting, running, notifying, stopped, Queue, Action, push_request, work_on, pop_responses,
  consume_responses, destroy, construct, turn, fetch, respond, pop, consume, next, Reach, start,
  later,
}

module _ {Req Resp : Type 0} (answer : Req → Resp) (w : Resp → ℕ) (n : ℕ) where
  abbrev pub promised : Req → ℕ
  promised request = w (answer request)

  -- What the response of a running request will weigh.
  abbrev pub carried : Worker Req → ℕ
  carried (running request) = promised request
  carried _ = 0

  abbrev pub held : Option (List Resp) → ℕ
  held none = 0
  held (some rs) = weigh w rs

  -- What the accepted requests are to yield stands in the queues, with the workers, in a call of
  -- PopResponses, or has been returned.
  abbrev pub IsConserved : Queue Req Resp → Type 0
  IsConserved q =
      weigh promised q.pushed
      ≡ weigh promised q.request_queue
        + sum_below carried n q.workers
        + weigh w q.resp_queue
        + held q.popping
        + weigh w q.popped

  fetch-IsConserved :
      (i : ℕ) (stop : Bool) (reqs : List Req) (q r : Queue Req Resp)
      → i < n
      → q.workers i ≡ waiting
      → q.request_queue ≡ reqs
      → fetch answer i stop reqs q ≡ some r
      → IsConserved q
      → IsConserved r
  unfolding fetch
  fetch-IsConserved i false [] q r h e k t c = cc
  fetch-IsConserved i true [] q r h e k t c =
      ground (arith, sum_below-move carried n i stopped q.workers)
  fetch-IsConserved i stop (task ∷ rest) q r h e k t c =
      ground (arith, sum_below-move carried n i (running task) q.workers)

  respond-IsConserved :
      (i : ℕ) (request : Req) (p : Option (List Resp)) (q r : Queue Req Resp)
      → i < n
      → q.workers i ≡ running request
      → respond answer i request p q ≡ some r
      → IsConserved q
      → IsConserved r
  unfolding respond
  respond-IsConserved i request (some rs) q r h e t c = cc
  respond-IsConserved i request none q r h e t c = ground (
    arith,
    sum_below-move carried n i notifying q.workers,
    weigh-append w q.resp_queue (answer request ∷ []),
  )

  turn-IsConserved :
      (i : ℕ) (u : Worker Req) (q r : Queue Req Resp)
      → i < n
      → q.workers i ≡ u
      → turn answer i u q ≡ some r
      → IsConserved q
      → IsConserved r
  unfolding turn
  turn-IsConserved i waiting q r h e t c =
      fetch-IsConserved i q.stop q.request_queue q r h e refl t c
  turn-IsConserved i (running request) q r h e t c =
      respond-IsConserved i request q.popping q r h e t c
  turn-IsConserved i notifying q r h e t c =
      ground (arith, sum_below-move carried n i waiting q.workers)
  turn-IsConserved i stopped q r h e t c = cc

  pop-IsConserved :
      (p : Option (List Resp)) (q r : Queue Req Resp)
      → q.popping ≡ p
      → pop answer p q ≡ some r
      → IsConserved q
      → IsConserved r
  unfolding pop
  pop-IsConserved none q r e t c = ground arith
  pop-IsConserved (some rs) q r e t c = cc

  consume-IsConserved :
      (p : Option (List Resp)) (q r : Queue Req Resp)
      → q.popping ≡ p
      → consume answer p q ≡ some r
      → IsConserved q
      → IsConserved r
  unfolding consume
  consume-IsConserved none q r e t c = cc
  consume-IsConserved (some rs) q r e t c = ground (arith, weigh-append w q.popped rs)

  next-IsConserved :
      (a : Action Req) (q r : Queue Req Resp)
      → next answer n a q ≡ some r
      → IsConserved q
      → IsConserved r
  unfolding next
  next-IsConserved (push_request request) q r t c = ground (
    arith,
    weigh-append promised q.request_queue (request ∷ []),
    weigh-append promised q.pushed (request ∷ []),
  )
  next-IsConserved (work_on i) q r t c = elim (Bool-cases (ltb i n)) [
    | inl h ↦ turn-IsConserved i (q.workers i) q r (ground arith) refl (ground arith) c
    | inr h ↦ ground arith
  ]
  next-IsConserved pop_responses q r t c = pop-IsConserved q.popping q r refl t c
  next-IsConserved consume_responses q r t c = consume-IsConserved q.popping q r refl t c
  next-IsConserved destroy q r t c = ground arith

  -- In every state that a pool can reach, and for every weight of responses, the responses of all
  -- accepted requests weigh as much as those still to be computed, those being computed, those in the
  -- queue, those in a call of PopResponses and those returned together.
  pub responses_conserved :
      {q : Queue Req Resp}
      → Reach answer n q
      → weigh promised q.pushed
        ≡ weigh promised q.request_queue
          + sum_below carried n q.workers
          + weigh w q.resp_queue
          + held q.popping
          + weigh w q.popped
  unfolding construct
  responses_conserved start =
      omega (arith, sum_below-eq-zero carried n (λ _. waiting) (λ i h. refl))
  responses_conserved (later {q} {r} reach a t) =
      next-IsConserved a q r t (responses_conserved reach)
