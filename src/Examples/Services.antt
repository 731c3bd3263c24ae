-- ===== src/Examples/Services.antt =====
-- A run of a whole Downloader (code/aws/downloader.cc): two tasks of InitConnections, and a download.
use lab_cpp.Base.{
  ℕ, zero, suc, ◌≢◌, ◌+◌, ◌≤◌, ◌≡◌, ◌⊎◌, true, length, refl, Option-cases, none, some, inl, inr,
  List, [], ◌∷◌, arith, weigh,
}
use lab_cpp.Async.Queue.{Queue, construct}
use lab_cpp.Async.Queue
use lab_cpp.Async.Synchronizer.{wait_returns}
use lab_cpp.Download.Init
use lab_cpp.Download.Init.{
  Barrier, parked, aborted, start, call_back, resume, finish, init_connections,
}
use lab_cpp.Download.Pool.Ends.{Serves, rest, serve, service_work, serving_ends}
use lab_cpp.Download.Pool.Rest.{AtRest, downloads_answered}
use lab_cpp.Download.Pool.{
  Service, Job, Action, ends_download, begin_init, push_init, schedule, interrupt, enqueue,
  end_responses, work_on, advance, created, empty_response, end_step, advance_step, next, Reach,
  create, later,
}

-- The state after a list of actions; the first that is not possible ends it.
unfoldable after : List Action → Service → Service
unfolding next
after [] s = s
after (a ∷ actions) s = elim (next 2 2 a s) [ none ↦ s | some t ↦ after actions t ]

replay : (actions : List Action) (s : Service) → Reach 2 2 s → Reach 2 2 (after actions s)
unfolding after
replay [] s reach = reach
replay (a ∷ actions) s reach = elim (Option-cases (next 2 2 a s)) [
  | inl e ↦ rw (e, after) reach
  | inr (t, e) ↦ rw (e, after) (replay actions t (later reach a e))
]

-- A first download comes before InitConnections; then the first task waits for the second when another
-- download interrupts it.
abbrev blocked : List Action
blocked =
    schedule empty_response.request
    ∷ interrupt
    ∷ enqueue
    ∷ begin_init
    ∷ push_init
    ∷ push_init
    ∷ push_init
    ∷ work_on 1
    ∷ work_on 1
    ∷ work_on 1
    ∷ work_on 0
    ∷ advance 0 (start 0)
    ∷ advance 0 (call_back 0)
    ∷ schedule empty_response.request
    ∷ interrupt
    ∷ enqueue
    ∷ []

-- It goes on; the second aborts; and the other worker takes the download.
abbrev served : List Action
served =
    advance 0 (resume 0)
    ∷ advance 0 (finish 0 [])
    ∷ work_on 0
    ∷ work_on 0
    ∷ work_on 0
    ∷ advance 0 (start 1)
    ∷ work_on 1
    ∷ work_on 0
    ∷ work_on 0
    ∷ work_on 1
    ∷ work_on 1
    ∷ []

abbrev interrupted : Service
interrupted = after blocked created

abbrev answered : Service
answered = after served interrupted

abbrev interrupted_reached : Reach 2 2 interrupted
interrupted_reached = replay blocked created create

abbrev answered_reached : Reach 2 2 answered
answered_reached = replay served interrupted interrupted_reached

answered_rests : AtRest 2 2 answered
unfolding after next init_connections construct ends_download advance_step end_step Queue.next
    Init.next
answered_rests (work_on zero) z y = refl
answered_rests (work_on (suc zero)) z y = refl
answered_rests (work_on (suc (suc i))) z y = ground arith
answered_rests (advance zero a) z y = refl
answered_rests (advance (suc zero) a) z y = refl
answered_rests (advance (suc (suc i)) a) z y = ground arith
answered_rests end_responses z y = refl
answered_rests _ z y = cc

downloads_answered_example :
    ((k : ℕ) → answered.barrier.tasks k ≢ parked)
    × ((k : ℕ) (b : Barrier)
        → Init.next 2 2 (start k) answered.barrier ≡ some b
        → b.tasks k ≡ aborted)
    × (AtRest 2 2 answered
        → (w : Job → ℕ)
        → (weigh w answered.queue.pushed
            ≡ weigh w answered.queue.resp_queue + weigh w answered.queue.popped)
          × ((wait_returns answered.queue.work ≡ true) ⊎ (length answered.queue.resp_queue ≡ 0)))
unfolding after next init_connections construct ends_download
downloads_answered_example =
    downloads_answered 2 2 (omega arith) (omega arith) answered_reached refl refl

all_answered :
    (weigh (λ job. 1) answered.queue.pushed
      ≡ weigh (λ job. 1) answered.queue.resp_queue + weigh (λ job. 1) answered.queue.popped)
    × ((wait_returns answered.queue.work ≡ true) ⊎ (length answered.queue.resp_queue ≡ 0))
unfolding after next init_connections construct ends_download
all_answered = downloads_answered_example.2 answered_rests (λ job. 1)

one_step : Serves 2 2 1 interrupted (after (advance 0 (resume 0) ∷ []) interrupted)
unfolding after next init_connections construct ends_download
one_step = serve rest (advance 0 (resume 0)) refl refl

serving_ends_example : 1 ≤ service_work 2 2 interrupted
unfolding after next init_connections construct ends_download
serving_ends_example = serving_ends 2 2 (omega arith) interrupted_reached refl refl one_step
