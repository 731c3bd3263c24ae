-- ===== src/Examples/Sleepers.antt =====
-- Runs of a pool with its condition variable (code/util/async_queue.h).
use lab_cpp.Base.{
  ℕ, ◌+◌, ◌≤◌, ◌≡◌, refl, Option-cases, none, some, inl, inr, List, [], ◌∷◌, length, arith,
}
use lab_cpp.Base.Threads.{sum_below}
use lab_cpp.Async.Queue.{construct}
use lab_cpp.Async.Wakeup.{
  is_asleep, is_woken, Threads, Signal, push_request, work_on, destroy, notify_all, all_up, next,
  Reach, start, later,
}
use lab_cpp.Async.Wakeup.Awake.{requests_woken, stop_wakes}

abbrev double : ℕ → ℕ
double request = request + request

-- The state of two workers after a list of signals; the first that is not possible ends it.
unfoldable after : List (Signal ℕ) → Threads ℕ ℕ → Threads ℕ ℕ
unfolding next
after [] s = s
after (a ∷ signals) s = elim (next double 2 a s) [ none ↦ s | some t ↦ after signals t ]

replay :
    (signals : List (Signal ℕ)) (s : Threads ℕ ℕ)
    → Reach double 2 s
    → Reach double 2 (after signals s)
unfolding after
replay [] s reach = reach
replay (a ∷ signals) s reach = elim (Option-cases (next double 2 a s)) [
  | inl e ↦ rw (e, after) reach
  | inr (t, e) ↦ rw (e, after) (replay signals t (later reach a e))
]

-- Both workers sleep, and a request has come.
abbrev requested : Threads ℕ ℕ
requested = after (work_on 0 ∷ work_on 1 ∷ push_request 7 ∷ []) (all_up double 2)

abbrev requested_reached : Reach double 2 requested
requested_reached = replay (work_on 0 ∷ work_on 1 ∷ push_request 7 ∷ []) (all_up double 2) start

requests_woken_example :
    length requested.queue.request_queue
    ≤ requested.notifications + sum_below is_woken 2 requested.stands
unfolding after next all_up construct sum_below
requests_woken_example = requests_woken double 2 requested_reached (omega arith)

abbrev ended : Threads ℕ ℕ
ended = after (destroy ∷ notify_all ∷ []) requested

stop_wakes_example : sum_below is_asleep 2 ended.stands ≡ 0
unfolding after next all_up construct
stop_wakes_example =
    stop_wakes double 2 (replay (destroy ∷ notify_all ∷ []) requested requested_reached) refl refl
