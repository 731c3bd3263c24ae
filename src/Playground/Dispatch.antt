-- ===== src/Playground/Dispatch.antt =====
-- The loop that the programs of code/playground share: the main thread hands its requests to a pool,
-- and then, until it has as many responses, waits for the Synchronizer and takes what is there. The
-- source of the clauses is `execute` of code/playground/query-bw-scheduler.cc.
pub mod Ends
pub mod Progress
use lab_cpp.Base.{
  ℕ, ◌+◌, ◌≡◌, Bool, true, false, ◌&&◌, Option, none, some, List, [], ◌∷◌, length, if◌then◌else◌,
  ltb, leb,
}
use lab_cpp.Async.Synchronizer.{wait_returns}
use lab_cpp.Async.Queue.{Queue, Action, work_on, construct, push, pop, consume, next}

-- `left` are the requests that the main thread has still to push, `completed` its counter.
pub record Run (Req Resp : Type 0) : Type 0 where
  pub queue : Queue Req Resp
  pub left : List Req
  pub completed : ℕ

pub data Thread : Type 0 where
  main : Thread
  worker : (i : ℕ) → Thread

module _ {Req Resp : Type 0} (answer : Req → Resp) (pool_size goal : ℕ) where
  abbrev pub with_queue : List Req → ℕ → Option (Queue Req Resp) → Option (Run Req Resp)
  with_queue left completed none = none
  with_queue left completed (some queue) =
      some (record { queue = queue; left = left; completed = completed })

  -- The main thread: push the next request; wait, while responses are missing, and begin
  -- PopResponses; end that call, and count what it has returned.
  unfoldable pub main_step : List Req → Option (List Resp) → Run Req Resp → Option (Run Req Resp)
  unfolding push pop consume wait_returns
  main_step left (some taken) run =
      with_queue left (run.completed + length taken) (consume answer (some taken) run.queue)
  main_step (request ∷ left) none run =
      with_queue left run.completed (push answer request run.queue)
  main_step [] none run =
      if ltb run.completed goal && wait_returns run.queue.work
      then with_queue [] run.completed (pop answer none run.queue)
      else none

  unfoldable pub step : Thread → Run Req Resp → Option (Run Req Resp)
  unfolding main_step next
  step main run = main_step run.left run.queue.popping run
  step (worker i) run =
      with_queue run.left run.completed (next answer pool_size (work_on i) run.queue)

abbrev pub scheduled : {Req Resp : Type 0} → (Req → Resp) → List Req → Run Req Resp
scheduled answer requests = record { queue = construct answer; left = requests; completed = 0 }

-- The states that some interleaving of the main thread and the workers reaches, with the number of
-- steps that it has taken. The main thread is to push `requests`, and waits for as many responses.
pub data Ran {Req Resp : Type 0} (answer : Req → Resp) (pool_size : ℕ) (requests : List Req)
    : ℕ → Run Req Resp → Type 0 where
  begin : Ran answer pool_size requests 0 (scheduled answer requests)
  later :
      {k : ℕ} {run after : Run Req Resp}
      → Ran answer pool_size requests k run
      → (t : Thread) → step answer pool_size (length requests) t run ≡ some after
      → Ran answer pool_size requests (k + 1) after
