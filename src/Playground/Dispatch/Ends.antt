-- ===== src/Playground/Dispatch/Ends.antt =====
-- The loop of code/playground ends: the number of its steps is bounded.
use mathlib.Core.List.{append_assoc}
use lab_cpp.Base.{
  ℕ, ◌+◌, ◌*◌, ◌≤◌, ◌<◌, ◌≡◌, refl, Bool, true, false, Bool-cases, ltb, inl, inr, Option, none,
  some, List, [], ◌∷◌, ◌++◌, sym, ◌∙◌, length, arith, ◌&&◌,
}
use lab_cpp.Base.Threads.{sum_below-eq-zero}
use lab_cpp.Async.Synchronizer.{wait_returns}
use lab_cpp.Async.Queue.{
  Worker, waiting, running, notifying, stopped, Queue, Action, push_request, work_on, pop_responses,
  consume_responses, construct, push, turn, fetch, respond, pop, consume, next, Reach, start,
}
use lab_cpp.Async.Queue
use lab_cpp.Async.Count.{wait_returns-queued}
use lab_cpp.Playground.Dispatch.{
  Run, Thread, main, worker, with_queue, main_step, step, Ran, begin, later,
}
use lab_cpp.Async.Work.{
  turn-work, consume-work, push-work, pop-work, turn-keeps, worker-turn, consume-Reach, pop-Reach,
  push-Reach, owed, queue_work,
}

module _ {Req Resp : Type 0} (answer : Req → Resp) (n : ℕ) where
  abbrev pub work_left : Run Req Resp → ℕ
  work_left run = 6 * length run.left + queue_work answer n run.queue

  -- The parts of a step.
  with_queue-parts :
      (goal : ℕ) (left : List Req) (completed : ℕ) (o : Option (Queue Req Resp))
      (after : Run Req Resp)
      → with_queue answer n goal left completed o ≡ some after
      → (o ≡ some after.queue) × (after.left ≡ left) × (after.completed ≡ completed)
  with_queue-parts goal left completed none after e = cc
  with_queue-parts goal left completed (some q) after e = ground arith

  -- The counter is the number of the responses returned, the requests are pushed or left, nobody
  -- stops the pool, and a call of PopResponses holds its responses.
  pub record IsDispatching (requests : List Req) (run : Run Req Resp) : Type 0 where
    pub reached : Reach answer n run.queue
    pub running_pool : run.queue.stop ≡ false
    pub counts : run.completed ≡ length run.queue.popped
    pub pushes : run.queue.pushed ++ run.left ≡ requests

  and_right : (x y : Bool) → (x && y) ≡ true → y ≡ true
  and_right x y e = ground arith

  main_step-dispatches :
      (requests : List Req) (goal : ℕ) (left : List Req) (p : Option (List Resp))
      (run after : Run Req Resp)
      → run.left ≡ left
      → run.queue.popping ≡ p
      → main_step answer n goal left p run ≡ some after
      → IsDispatching requests run
      → IsDispatching requests after × (work_left after < work_left run)
  unfolding main_step
  main_step-dispatches requests goal left (some taken) run after l p e d =
      let (c, a, b) = with_queue-parts goal left (run.completed + length taken) _ after e in
      let (less, stop, popped, pushed) = consume-work answer n taken run.queue after.queue p c in
      (
        record {
          reached = consume-Reach answer n taken run.queue after.queue d.reached p c;
          running_pool = ground (arith, stop, d.running_pool);
          counts = ground (arith, popped, b, d.counts);
          pushes = rw (pushed, a, sym l) d.pushes;
        },
        ground (arith, less, a, l),
      )
  main_step-dispatches requests goal (request ∷ left) none run after l p e d =
      let (c, a, b) = with_queue-parts goal left run.completed _ after e in
      let (less, stop, popped, pushed) = push-work answer n request run.queue after.queue c in
      (
        record {
          reached = push-Reach answer n request run.queue after.queue d.reached c;
          running_pool = ground (arith, stop, d.running_pool);
          counts = ground (arith, popped, b, d.counts);
          pushes =
              rw (pushed, a)
                (append_assoc run.queue.pushed (request ∷ []) left ∙ (rw l at d.pushes));
        },
        ground (arith, less, a, l),
      )
  main_step-dispatches requests goal [] none run after l p e d =
      elim (Bool-cases (ltb run.completed goal && wait_returns run.queue.work)) [
        | inl h ↦
            let (c, a, b) = with_queue-parts goal [] run.completed _ after (rw h at e) in
            let queued : 0 < length run.queue.resp_queue =
              wait_returns-queued answer n d.reached p
                (and_right (ltb run.completed goal) (wait_returns run.queue.work) h) in
            let (less, stop, popped, pushed) = pop-work answer n run.queue after.queue p queued c in
            (
              record {
                reached = pop-Reach answer n run.queue after.queue d.reached p c;
                running_pool = ground (arith, stop, d.running_pool);
                counts = ground (arith, popped, b, d.counts);
                pushes = rw (pushed, a, sym l) d.pushes;
              },
              ground (arith, less, a, l),
            )
        | inr h ↦ ground arith
      ]

  step-dispatches :
      (requests : List Req) (goal : ℕ) (t : Thread) (run after : Run Req Resp)
      → step answer n goal t run ≡ some after
      → IsDispatching requests run
      → IsDispatching requests after × (work_left after < work_left run)
  unfolding step
  step-dispatches requests goal main run after e d =
      main_step-dispatches requests goal run.left run.queue.popping run after refl refl e d
  step-dispatches requests goal (worker i) run after e d =
      let (c, a, b) = with_queue-parts goal run.left run.completed _ after e in
      let (h, t) = worker-turn answer n i run.queue after.queue c in
      let w =
        turn-work answer n i (run.queue.workers i) run.queue after.queue h refl d.running_pool t in
      let (stop, popped, pushed, popping) =
        turn-keeps answer n i (run.queue.workers i) run.queue after.queue t in
      (
        record {
          reached = Queue.later d.reached (work_on i) c;
          running_pool = ground (arith, stop, d.running_pool);
          counts = ground (arith, popped, b, d.counts);
          pushes = rw (pushed, a) d.pushes;
        },
        ground (arith, w, a),
      )

  module _ (requests : List Req) where
    pub Ran-dispatches :
        {k : ℕ} {run : Run Req Resp}
        → Ran answer n requests k run
        → IsDispatching requests run × (work_left run + k ≤ 6 * length requests)
    unfolding construct
    Ran-dispatches begin = (
      record { reached = start; running_pool = refl; counts = refl; pushes = refl },
      omega (arith, sum_below-eq-zero (owed {Req = Req}) n (λ _. waiting) (λ i h. refl)),
    )
    Ran-dispatches (later {k} {run} {after} ran t e) =
        let (d, w) = Ran-dispatches ran in
        let (d2, w2) = step-dispatches requests (length requests) t run after e d in
        (d2, omega (arith, w, w2))

    -- The loop and its pool come to rest: whatever the order of their steps, the main thread that hands
    -- a number of requests to the pool and waits for as many responses, and the workers,
    -- take at most six steps for each request.
    pub dispatch_ends :
        {k : ℕ} {run : Run Req Resp} → Ran answer n requests k run → k ≤ 6 * length requests
    dispatch_ends ran = let (d, w) = Ran-dispatches ran in omega (arith, w)
