-- ===== src/Async/Order.antt =====
-- A pool of one worker answers in the order of the requests (code/util/async_queue.h).
use lab_cpp.Base.{
  zero, suc, ◌≡◌, refl, sym, ap, ◌∙◌, Bool, true, false, Option, none, some, List, [], ◌∷◌, ◌++◌,
  map, append-nil, append_assoc, arith,
}
use mathlib.Core.List.{map-append}
use lab_cpp.Async.Queue.{
  Worker, waiting, running, notifying, stopped, Queue, Action, push_request, work_on, pop_responses,
  consume_responses, destroy, construct, turn, fetch, respond, pop, consume, next, Reach, start,
  later,
}

module _ {Req Resp : Type 0} (answer : Req → Resp) where
  -- The request that a worker is running.
  abbrev pub in_hand : Worker Req → List Req
  in_hand (running request) = request ∷ []
  in_hand _ = []

  abbrev pub in_pop : Option (List Resp) → List Resp
  in_pop none = []
  in_pop (some rs) = rs

  -- Oldest first: what was returned, what is being returned, what is queued, and what is to come.
  abbrev pub outcome : Queue Req Resp → List Resp
  outcome q =
      q.popped
      ++ in_pop q.popping
      ++ q.resp_queue
      ++ map answer (in_hand (q.workers 0) ++ q.request_queue)

  fetch-order :
      (stop : Bool) (reqs : List Req) (q r : Queue Req Resp)
      → q.workers 0 ≡ waiting
      → q.request_queue ≡ reqs
      → fetch answer 0 stop reqs q ≡ some r
      → (outcome r ≡ outcome q) × (r.pushed ≡ q.pushed)
  unfolding fetch
  fetch-order false [] q r e k t = cc
  fetch-order true [] q r e k t = ground arith
  fetch-order stop (task ∷ rest) q r e k t = ground arith

  respond-order :
      (request : Req) (p : Option (List Resp)) (q r : Queue Req Resp)
      → q.workers 0 ≡ running request
      → q.popping ≡ p
      → respond answer 0 request p q ≡ some r
      → (outcome r ≡ outcome q) × (r.pushed ≡ q.pushed)
  unfolding respond
  respond-order request (some rs) q r e k t = cc
  respond-order request none q r e k t =
      let before = q.popped ++ [] in
      ground (
        arith,
        append_assoc before q.resp_queue (answer request ∷ []),
        append_assoc (before ++ q.resp_queue) (answer request ∷ []) (map answer q.request_queue),
      )

  turn-order :
      (u : Worker Req) (q r : Queue Req Resp)
      → q.workers 0 ≡ u
      → turn answer 0 u q ≡ some r
      → (outcome r ≡ outcome q) × (r.pushed ≡ q.pushed)
  unfolding turn
  turn-order waiting q r e t = fetch-order q.stop q.request_queue q r e refl t
  turn-order (running request) q r e t = respond-order request q.popping q r e refl t
  turn-order notifying q r e t = ground arith
  turn-order stopped q r e t = cc

  pop-order :
      (p : Option (List Resp)) (q r : Queue Req Resp)
      → q.popping ≡ p
      → pop answer p q ≡ some r
      → (outcome r ≡ outcome q) × (r.pushed ≡ q.pushed)
  unfolding pop
  pop-order none q r e t =
      ground (arith, append-nil q.popped, append-nil (q.popped ++ q.resp_queue))
  pop-order (some rs) q r e t = cc

  consume-order :
      (p : Option (List Resp)) (q r : Queue Req Resp)
      → q.popping ≡ p
      → consume answer p q ≡ some r
      → (outcome r ≡ outcome q) × (r.pushed ≡ q.pushed)
  unfolding consume
  consume-order none q r e t = cc
  consume-order (some rs) q r e t = ground (arith, append-nil (q.popped ++ rs))

  abbrev IsOrdered : Queue Req Resp → Type 0
  IsOrdered q = outcome q ≡ map answer q.pushed

  push-order :
      (request : Req) (q : Queue Req Resp)
      → IsOrdered q
      → IsOrdered (record q {
        request_queue = q.request_queue ++ request ∷ [];
        pushed = q.pushed ++ request ∷ [];
      })
  push-order request q o =
      let before = q.popped ++ in_pop q.popping ++ q.resp_queue in
      let now = in_hand (q.workers 0) in
      ap (λ xs. before ++ map answer xs) (sym (append_assoc now q.request_queue (request ∷ [])))
      ∙ ap (λ ys. before ++ ys) (map-append answer (now ++ q.request_queue) (request ∷ []))
      ∙ sym (append_assoc before (map answer (now ++ q.request_queue)) (answer request ∷ []))
      ∙ ap (λ ys. ys ++ answer request ∷ []) o
      ∙ sym (map-append answer q.pushed (request ∷ []))

  next-IsOrdered :
      (a : Action Req) (q r : Queue Req Resp)
      → next answer 1 a q ≡ some r
      → IsOrdered q
      → IsOrdered r
  unfolding next
  next-IsOrdered (push_request request) q r t o = ground (arith, push-order request q o)
  next-IsOrdered (work_on zero) q r t o = ground (arith, turn-order (q.workers 0) q r refl)
  next-IsOrdered (work_on (suc i)) q r t o = ground arith
  next-IsOrdered pop_responses q r t o = ground (arith, pop-order q.popping q r refl t)
  next-IsOrdered consume_responses q r t o = ground (arith, consume-order q.popping q r refl t)
  next-IsOrdered destroy q r t o = ground arith

  -- In every state that a pool of one worker can reach, what PopResponses has returned, what it is
  -- returning, what is queued and what is still to come are, in this order, the responses to the
  -- accepted requests in the order of their pushes.
  pub responses_ordered :
      {q : Queue Req Resp}
      → Reach answer 1 q
      → q.popped
          ++ in_pop q.popping
          ++ q.resp_queue
          ++ map answer (in_hand (q.workers 0) ++ q.request_queue)
        ≡ map answer q.pushed
  unfolding construct
  responses_ordered start = refl
  responses_ordered (later {q} {r} reach a t) = next-IsOrdered a q r t (responses_ordered reach)
