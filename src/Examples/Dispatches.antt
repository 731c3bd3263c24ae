-- ===== src/Examples/Dispatches.antt =====
-- Runs of the loop of code/playground, and of `execute` of code/playground/query-bw-scheduler.cc.
use lab_cpp.Base.{
  ℕ, zero, suc, ◌+◌, ◌*◌, ◌≤◌, ◌≡◌, refl, true, Option-cases, none, some, inl, inr, List, [], ◌∷◌,
  ◌++◌, length, weigh, arith,
}
use lab_cpp.Base.Decimal.{print_ℕ}
use lab_cpp.Base.Text.{Text, codes}
use lab_cpp.Base.Int.{◌+ℤ◌, ◌-ℤ◌}
use lab_cpp.Async.Queue.{construct}
use lab_cpp.Playground.Dispatch.{Run, Thread, main, worker, step, Ran, begin, later, scheduled}
use lab_cpp.Playground.Dispatch.Ends.{dispatch_ends}
use lab_cpp.Playground.Dispatch.Progress.{dispatch_completes}
use lab_cpp.Playground.Scheduler.{Invoked, invoke, invocations, summary, execute_successful}

module _ {Req Resp : Type 0} (answer : Req → Resp) (requests : List Req) where
  -- The state after a list of turns on a pool of one worker; the first that is not possible ends it.
  unfoldable after : List Thread → Run Req Resp → Run Req Resp
  unfolding step
  after [] run = run
  after (t ∷ turns) run = elim (step answer 1 (length requests) t run) [
    | none ↦ run
    | some r ↦ after turns r
  ]

  replay :
      (turns : List Thread) (k : ℕ) (run : Run Req Resp)
      → Ran answer 1 requests k run
      → (n : ℕ) × Ran answer 1 requests n (after turns run)
  unfolding after
  replay [] k run ran = (k, ran)
  replay (t ∷ turns) k run ran = elim (Option-cases (step answer 1 (length requests) t run)) [
    | inl e ↦ rw (e, after) (k, ran)
    | inr (r, e) ↦ rw (e, after) (replay turns (k + 1) r (later ran t e))
  ]

-- One request on its way through the pool and back.
abbrev way : List Thread
way = main ∷ worker 0 ∷ worker 0 ∷ worker 0 ∷ main ∷ main ∷ []

abbrev answer : ℕ → ℕ
answer r = r + 100

abbrev done : Run ℕ ℕ
done = after answer (7 ∷ []) way (scheduled answer (7 ∷ []))

reached : (n : ℕ) × Ran answer 1 (7 ∷ []) n done
reached = replay answer (7 ∷ []) way 0 (scheduled answer (7 ∷ [])) begin

dispatch_ends_example : reached.0 ≤ 6 * 1
dispatch_ends_example = dispatch_ends answer 1 (7 ∷ []) reached.1

still : (t : Thread) → step answer 1 1 t done ≡ none
unfolding after step construct ◌+ℤ◌ ◌-ℤ◌
still main = refl
still (worker zero) = refl
still (worker (suc i)) = ground arith

dispatch_completes_example :
    (done.completed ≡ 1) × (weigh (λ r. r) done.queue.popped ≡ weigh answer (7 ∷ []))
dispatch_completes_example =
    dispatch_completes answer 1 (7 ∷ []) reached.1 (omega arith) still (λ r. r)

abbrev accepts : Text → Invoked
accepts = invoke (λ name. true)

abbrev invoked : Run Text Invoked
invoked =
    after accepts (invocations 1 (codes "bee")) way
      (scheduled accepts (invocations 1 (codes "bee")))

invoked_reached : (n : ℕ) × Ran accepts 1 (invocations 1 (codes "bee")) n invoked
invoked_reached =
    replay accepts (invocations 1 (codes "bee")) way 0
      (scheduled accepts (invocations 1 (codes "bee"))) begin

all_still : (t : Thread) → step accepts 1 (length (invocations 1 (codes "bee"))) t invoked ≡ none
unfolding after step construct invocations invoke ◌+ℤ◌ ◌-ℤ◌
all_still main = refl
all_still (worker zero) = refl
all_still (worker (suc i)) = ground arith

execute_successful_example :
    summary 1 invoked.queue.popped
    ≡ (codes "invokes_scheduled=" ++ print_ℕ 1) ∷ (codes "invokes_successful=" ++ print_ℕ 1) ∷ []
execute_successful_example =
    execute_successful (λ name. true) (codes "bee") 1 1 refl invoked_reached.1 (omega arith)
      all_still
