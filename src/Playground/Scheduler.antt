-- ===== src/Playground/Scheduler.antt =====
-- code/playground/query-bw-scheduler.cc: `execute` hands invocations of a function to a pool, and counts
-- those that succeed. The Lambda client is a parameter; its exit(1) is an answer of its own.
use Prim.Native.Nat.{max, ◌≤◌}
use lab_cpp.Base.{
  ℕ, zero, suc, ◌+◌, ◌*◌, ◌≡◌, ◌<◌, refl, Bool, true, Option, none, some, List, [], ◌∷◌, ◌++◌,
  length, weigh, if◌then◌else◌, ltb, arith,
}
use lab_cpp.Base.Text.{Text, codes, text_eq}
use lab_cpp.Base.Decimal.{print_ℕ}
use lab_cpp.Base.Status.{Result, ok, err}
use lab_cpp.Sdk.{Scheme, http, https}
use lab_cpp.Playground.Dispatch.{Run, Thread, step, Ran}
use lab_cpp.Playground.Dispatch.Progress.{dispatch_completes}

-- ConnectRetryStrategy, in milliseconds.
pub record ConnectRetryStrategy : Type 0 where
  pub retry_interval : ℕ
  pub max_retry_duration : ℕ

abbrev pub connect_retry_strategy : ConnectRetryStrategy
connect_retry_strategy = record { retry_interval = 200; max_retry_duration = 6000 }

unfoldable pub should_retry : ConnectRetryStrategy → ℕ → Bool
should_retry s attempted_retries = ltb (attempted_retries * s.retry_interval) s.max_retry_duration

unfoldable pub calculate_delay_before_next_retry : ConnectRetryStrategy → ℕ → ℕ
calculate_delay_before_next_retry s attempted_retries = s.retry_interval

-- The retries that the SDK makes while they all fail: it asks before each one, and sleeps. `bound` is
-- how many it may make at most, and the result is what it sleeps together.
unfoldable pub retry_delays : ConnectRetryStrategy → ℕ → ℕ → ℕ
unfolding should_retry calculate_delay_before_next_retry
retry_delays s zero attempted_retries = 0
retry_delays s (suc bound) attempted_retries =
    let rest = retry_delays s bound (attempted_retries + 1) in
    if should_retry s attempted_retries
    then calculate_delay_before_next_retry s attempted_retries + rest
    else 0

-- What the constructor of Fume makes of its options, before it makes the client of them.
pub record ClientConfiguration : Type 0 where
  pub region : Text
  pub endpoint_override : Text
  pub scheme : Scheme
  pub retry_strategy : ConnectRetryStrategy

unfoldable pub fume_config : Text → Text → Text → Option ClientConfiguration
fume_config region endpoint_override scheme =
    let with_scheme : Scheme → ClientConfiguration = λ s. record {
      region = region;
      endpoint_override = endpoint_override;
      scheme = s;
      retry_strategy = connect_retry_strategy;
    } in
    if text_eq scheme (codes "http")
    then some (with_scheme http)
    else (if text_eq scheme (codes "https") then some (with_scheme https) else none)

pub data InvokeResponse : Type 0 where
  invoke_response : InvokeResponse

-- The closure that Invoke queues: a response, or the end of the process.
pub data Invoked : Type 0 where
  answers : Result InvokeResponse → Invoked
  exits : ℕ → Invoked

module _ (is_success : Text → Bool) where
  unfoldable pub invoke : Text → Invoked
  invoke function_name = if is_success function_name then answers (ok invoke_response) else exits 1

-- The requests of the loop that calls Invoke.
unfoldable pub invocations : ℕ → Text → List Text
invocations zero function_name = []
invocations (suc nb_invoke) function_name = function_name ∷ invocations nb_invoke function_name

-- The inner loop of `execute`.
abbrev pub succeeded : Invoked → ℕ
succeeded (answers (ok response)) = 1
succeeded (answers (err c m)) = 0
succeeded (exits code) = 0

unfoldable pub count_successful : ℕ → List Invoked → ℕ
count_successful invokes_successful [] = invokes_successful
count_successful invokes_successful (res ∷ results) =
    count_successful (invokes_successful + succeeded res) results

-- The last lines of `execute`.
unfoldable pub summary : ℕ → List Invoked → List Text
unfolding count_successful
summary nb_invoke results =
    (codes "invokes_scheduled=" ++ print_ℕ nb_invoke)
    ∷ (codes "invokes_successful=" ++ print_ℕ (count_successful 0 results))
    ∷ []

length-invocations : (n : ℕ) (name : Text) → length (invocations n name) ≡ n
unfolding invocations
length-invocations zero name = refl
length-invocations (suc n) name = omega (arith, length-invocations n name)

count_successful-weigh :
    (k : ℕ) (results : List Invoked) → count_successful k results ≡ k + weigh succeeded results
unfolding count_successful
count_successful-weigh k [] = omega arith
count_successful-weigh k (res ∷ results) =
    omega (arith, count_successful-weigh (k + succeeded res) results)

invocations-weigh :
    (is_success : Text → Bool) (n : ℕ) (name : Text)
    → is_success name ≡ true
    → weigh (λ r. succeeded (invoke is_success r)) (invocations n name) ≡ n
unfolding invocations invoke
invocations-weigh is_success zero name e = refl
invocations-weigh is_success (suc n) name e = ground (arith, invocations-weigh is_success n name e)

-- Where Lambda accepts every invocation, `execute` reports success: in every state that its main thread
-- and a pool of at least one worker reach in which none can take a step, what it prints of the
-- responses that it has got is that as many invocations were successful as were scheduled.
pub execute_successful :
    (is_success : Text → Bool) (name : Text) (nb_parallel nb_invoke : ℕ) {k : ℕ}
    {run : Run Text Invoked}
    → is_success name ≡ true
    → Ran (invoke is_success) nb_parallel (invocations nb_invoke name) k run
    → 0 < nb_parallel
    → ((t : Thread)
        → step (invoke is_success) nb_parallel (length (invocations nb_invoke name)) t run ≡ none)
    → summary nb_invoke run.queue.popped
      ≡ (codes "invokes_scheduled=" ++ print_ℕ nb_invoke)
        ∷ (codes "invokes_successful=" ++ print_ℕ nb_invoke)
        ∷ []
unfolding summary
execute_successful is_success name nb_parallel nb_invoke {k} {run} e ran positive still =
    let (all, weighed) =
      dispatch_completes (invoke is_success) nb_parallel (invocations nb_invoke name) ran positive
        still succeeded in
    let counted : count_successful 0 run.queue.popped ≡ nb_invoke = omega (
      arith,
      weighed,
      count_successful-weigh 0 run.queue.popped,
      invocations-weigh is_success nb_invoke name e,
    ) in
    rw counted refl

-- The retries of the scheduler come to an end: however many the SDK would allow, it sleeps less than
-- the maximal duration and one interval more.
pub retry_delays_bounded :
    (s : ConnectRetryStrategy) (bound attempted_retries : ℕ)
    → attempted_retries * s.retry_interval + retry_delays s bound attempted_retries
      ≤ max (attempted_retries * s.retry_interval) (s.max_retry_duration + s.retry_interval)
unfolding retry_delays
retry_delays_bounded s zero k = omega arith
retry_delays_bounded s (suc bound) k = ground (arith, retry_delays_bounded s bound (k + 1))
