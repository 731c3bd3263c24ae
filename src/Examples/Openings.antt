-- ===== src/Examples/Openings.antt =====
-- Runs of the tasks that InitConnections of code/aws/downloader.cc queues.
use lab_cpp.Base.{
  ℕ, zero, suc, ◌<◌, ◌≢◌, refl, Option-cases, none, some, inl, inr, List, [], ◌∷◌, arith,
}
use lab_cpp.Download.Init.{
  queued, requesting, Barrier, Action, start, call_back, init_connections, next, Reach, begin,
  later, aborted,
}
use lab_cpp.Download.Init.Wakeup.{Herald}
use lab_cpp.Download.Init.Opening.{barrier_opens}
use lab_cpp.Download.Init.Undisturbed.{Undisturbed, no_task_aborts}

-- The state of two tasks on four threads after a list of actions; the first that is not possible
-- ends it.
unfoldable after : List Action → Barrier → Barrier
unfolding next
after [] b = b
after (a ∷ actions) b = elim (next 2 4 a b) [ none ↦ b | some c ↦ after actions c ]

replay : (actions : List Action) (b : Barrier) → Reach 2 4 b → Reach 2 4 (after actions b)
unfolding after
replay [] b reach = reach
replay (a ∷ actions) b reach = elim (Option-cases (next 2 4 a b)) [
  | inl e ↦ rw (e, after) reach
  | inr (c, e) ↦ rw (e, after) (replay actions c (later reach a e))
]

-- The first task waits, and the second has counted.
abbrev opening : Barrier
opening = after (start 0 ∷ start 1 ∷ call_back 0 ∷ call_back 1 ∷ []) init_connections

opening_reached : Reach 2 4 opening
opening_reached = replay (start 0 ∷ start 1 ∷ call_back 0 ∷ call_back 1 ∷ []) init_connections begin

settled : (j : ℕ) → j < 2 → (opening.tasks j ≢ queued) × (opening.tasks j ≢ requesting)
unfolding after next init_connections
settled zero h = (λ e. cc, λ e. cc)
settled (suc zero) h = (λ e. cc, λ e. cc)
settled (suc (suc j)) h = absurd (omega arith)

barrier_opens_example : Herald opening
unfolding after next init_connections
barrier_opens_example = barrier_opens 2 4 (omega arith) opening_reached settled 0 refl

undisturbed : Undisturbed 2 4 opening
unfolding after next init_connections
undisturbed =
    Undisturbed.later
      (Undisturbed.later
        (Undisturbed.later (Undisturbed.later Undisturbed.begin (start 0) (λ e. cc) refl) (start 1)
          (λ e. cc) refl)
        (call_back 0) (λ e. cc) refl)
      (call_back 1) (λ e. cc) refl

no_task_aborts_example : opening.tasks 1 ≢ aborted
no_task_aborts_example = no_task_aborts 2 4 undisturbed 1
