-- ===== src/Playground/Dispatch/Progress.antt =====
-- The loop of code/playground gets all its responses: it is nowhere blocked for good.
use mathlib.Core.Path.{subst, ap}
use lab_cpp.Base.{
  ℕ, ◌+◌, ◌<◌, ◌≡◌, refl, true, false, Bool-cases, ltb, inl, inr, Option, none, some, List, [], ◌∷◌,
  length, weigh, weigh-append, length-weigh, weigh-empty, arith, Option-cases,
}
use lab_cpp.Base.Threads.{sum_below-eq-zero}
use lab_cpp.Async.Synchronizer.{wait_returns}
use lab_cpp.Async.Queue.{waiting, push, turn, pop, consume, next}
use lab_cpp.Async.Count.{owes, queued-wait_returns}
use lab_cpp.Async.Conservation.{carried, held, responses_conserved}
use lab_cpp.Async.Work.{turn-idle}
use lab_cpp.Playground.Dispatch.{Run, Thread, main, worker, main_step, step, Ran}
use lab_cpp.Playground.Dispatch.Ends.{IsDispatching, Ran-dispatches}

module _ {Req Resp : Type 0} (answer : Req → Resp) (n goal : ℕ) where
  main-popping :
      (left : List Req) (p : Option (List Resp)) (run : Run Req Resp)
      → main_step answer n goal left p run ≡ none
      → p ≡ none
  unfolding main_step consume
  main-popping left none run e = refl
  main-popping left (some taken) run e = cc

  main-left :
      (left : List Req) (run : Run Req Resp)
      → run.queue.stop ≡ false
      → main_step answer n goal left none run ≡ none
      → left ≡ []
  unfolding main_step push
  main-left [] run s e = refl
  main-left (request ∷ left) run s e = ground arith

  main-waits :
      (run : Run Req Resp)
      → main_step answer n goal [] none run ≡ none
      → run.completed < goal
      → wait_returns run.queue.work ≡ false
  unfolding main_step pop
  main-waits run e h = ground arith

  worker-idle :
      (i : ℕ) (run : Run Req Resp)
      → i < n
      → step answer n goal (worker i) run ≡ none
      → turn answer i (run.queue.workers i) run.queue ≡ none
  unfolding step next
  worker-idle i run h e = elim (Option-cases (turn answer i (run.queue.workers i) run.queue)) [
    | inl t ↦ t
    | inr (r, t) ↦ ground arith
  ]

  main-none :
      (run : Run Req Resp)
      → step answer n goal main run ≡ none
      → main_step answer n goal run.left run.queue.popping run ≡ none
  unfolding step
  main-none run e = e

module _ {Req Resp : Type 0} (answer : Req → Resp) (n : ℕ) (requests : List Req) where
  -- No thread can take a step.
  abbrev pub AtRest : Run Req Resp → Type 0
  AtRest run = (t : Thread) → step answer n (length requests) t run ≡ none

  rest-popping : (run : Run Req Resp) → AtRest run → run.queue.popping ≡ none
  rest-popping run still =
      main-popping answer n (length requests) run.left run.queue.popping run
        (main-none answer n (length requests) run (still main))

  rest-main :
      (run : Run Req Resp)
      → AtRest run
      → main_step answer n (length requests) run.left none run ≡ none
  rest-main run still =
      subst (λ p. main_step answer n (length requests) run.left p run ≡ none)
        (rest-popping run still) (main-none answer n (length requests) run (still main))

  rest-left : (run : Run Req Resp) → AtRest run → run.queue.stop ≡ false → run.left ≡ []
  rest-left run still s = main-left answer n (length requests) run.left run s (rest-main run still)

  rest-waits :
      (run : Run Req Resp)
      → AtRest run
      → run.queue.stop ≡ false
      → run.completed < length requests
      → wait_returns run.queue.work ≡ false
  rest-waits run still s = main-waits answer n (length requests) run (
      subst (λ left. main_step answer n (length requests) left none run ≡ none)
        (rest-left run still s) (rest-main run still))

  rest-idle :
      (run : Run Req Resp)
      → AtRest run
      → IsDispatching answer n requests run
      → (i : ℕ) → i < n
      → (run.queue.workers i ≡ waiting) × (run.queue.request_queue ≡ [])
  rest-idle run still d i h =
      turn-idle answer n i (run.queue.workers i) run.queue d.reached refl d.running_pool
        (rest-popping run still) (worker-idle answer n (length requests) i run h (still (worker i)))

  -- At rest, the answers stand in the queue of the responses or have been returned.
  rest-answers :
      (run : Run Req Resp)
      → AtRest run
      → 0 < n
      → IsDispatching answer n requests run
      → (w : Resp → ℕ)
      → weigh (λ r. w (answer r)) requests ≡ weigh w run.queue.resp_queue + weigh w run.queue.popped
  rest-answers run still positive d w =
      let promise : Req → ℕ = λ r. w (answer r) in
      omega (
        arith,
        responses_conserved answer w n d.reached,
        sum_below-eq-zero (carried answer w n) n run.queue.workers
            (λ i h. ap (carried answer w n) ((rest-idle run still d i h).0)),
        ap (weigh promise) ((rest-idle run still d 0 positive).1),
        ap (held answer w n) (rest-popping run still),
        ap (weigh promise) d.pushes,
        weigh-append promise run.queue.pushed run.left,
        ap (weigh promise) (rest-left run still d.running_pool),
      )

  rest-queued :
      (run : Run Req Resp)
      → AtRest run
      → IsDispatching answer n requests run
      → run.completed < length requests
      → length run.queue.resp_queue ≡ 0
  rest-queued run still d h = elim (Bool-cases (ltb 0 (length run.queue.resp_queue))) [
    | inl l ↦
        let e : wait_returns run.queue.work ≡ true =
          queued-wait_returns answer n d.reached (rest-popping run still)
            (sum_below-eq-zero owes n run.queue.workers
              (λ i lt. ap owes ((rest-idle run still d i lt).0)))
            (ground arith) in
        ground (arith, e, rest-waits run still d.running_pool h)
    | inr l ↦ ground arith
  ]

  -- A thread can take a step until the main thread has what it waits for: in every state that the main
  -- thread and a pool of at least one worker reach in which none can take a step, the loop has counted
  -- as many responses as there are requests, and under every weight of responses those that it has got
  -- weigh as much as the answers to its requests.
  pub dispatch_completes :
      {k : ℕ} {run : Run Req Resp}
      → Ran answer n requests k run
      → 0 < n
      → ((t : Thread) → step answer n (length requests) t run ≡ none)
      → (w : Resp → ℕ)
      → (run.completed ≡ length requests)
        × (weigh w run.queue.popped ≡ weigh (λ r. w (answer r)) requests)
  dispatch_completes {k} {run} ran positive still w =
      let (d, less) = Ran-dispatches answer n requests ran in
      let ones = rest-answers run still positive d (λ _. 1) in
      let sizes : length requests ≡ length run.queue.resp_queue + length run.queue.popped = omega (
        arith,
        ones,
        length-weigh requests,
        length-weigh run.queue.popped,
        length-weigh run.queue.resp_queue,
      ) in
      let all : run.completed ≡ length requests =
        elim (Bool-cases (ltb run.completed (length requests))) [
          | inl l ↦ omega (arith, sizes, d.counts, rest-queued run still d (ground arith))
          | inr l ↦ ground (arith, sizes, d.counts)
        ] in
      (
        all,
        omega (
          arith,
          rest-answers run still positive d w,
          weigh-empty w run.queue.resp_queue (omega (arith, sizes, d.counts, all)),
        ),
      )
