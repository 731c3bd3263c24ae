-- ===== src/Playground/Aggregate.antt =====
-- code/playground/mem-bandwidth.cc and core-affinity.cc: an array is filled and summed up, five times. What
-- the system gives, which is times, addresses and results, comes as an argument for each round; the
-- doubles of core-affinity.cc are a parameter.
pub mod Sums
pub mod Memory
pub mod Affinity
use lab_cpp.Base.{
  ℕ, zero, suc, ◌+◌, ◌*◌, ◌/◌, ◌^◌, Bool, true, false, Option, none, some, List, [], ◌∷◌, ◌++◌,
  if◌then◌else◌, ltb, ◌==◌,
}
use lab_cpp.Base.Decimal.{print_ℕ}
use lab_cpp.Base.Int.{ℤ, pos, negsuc, ◌-ℤ◌}
use lab_cpp.Base.Text.{Text, codes}
use lab_cpp.Logger.{LogEntry, new_entry, int_field, float_field}
use lab_cpp.Toolbox.{get_duration_micro}

abbrev pub array_size : ℕ
array_size = 8 * 1_024 * 1_024

-- `values[i] = i`, from `i` on.
unfoldable pub fill_values : (left i : ℕ) → List ℕ
fill_values zero i = []
fill_values (suc left) i = i ∷ fill_values left (i + 1)

-- The sum of two int64_t that are not negative; an overflow is undefined.
unfoldable pub add_int64 : ℕ → ℕ → Option ℕ
add_int64 a b = if ltb (a + b) (2 ^ 63) then some (a + b) else none

abbrev pub then_sum : Option ℕ → (ℕ → Option ℕ) → Option ℕ
then_sum none rest = none
then_sum (some sum) rest = rest sum

unfoldable pub sum_values : List ℕ → ℕ → Option ℕ
unfolding add_int64
sum_values [] sum = some sum
sum_values (v ∷ values) sum = then_sum (add_int64 sum v) (sum_values values)

-- The times of one round of mem-bandwidth.cc, the address of its array, and the time of its entry.
pub record Round : Type 0 where
  pub alloc_start_time : ℕ
  pub alloc_end_time : ℕ
  pub agg_start_time : ℕ
  pub agg_end_time : ℕ
  pub array : ℕ
  pub logged : ℕ

-- `duration / 1000`, which cuts towards zero.
abbrev pub in_ms : ℤ → ℤ
in_ms (pos micro) = pos (micro / 1_000)
in_ms (negsuc micro) = pos 0 -ℤ pos ((micro + 1) / 1_000)

-- What the handlers have done: the arrays that they hold, those given back, and the logged entries.
pub record Bench : Type 0 where
  pub arrays : List ℕ
  pub released : List ℕ
  pub entries : List LogEntry

-- `delete[]` of each array.
abbrev pub clean_up : Bench → Bench
clean_up b = record b { arrays = []; released = b.released ++ b.arrays }

abbrev pub then_bench : Option Bench → (Bench → Option Bench) → Option Bench
then_bench none rest = none
then_bench (some b) rest = rest b

module _ (speed : ℤ → Text) (size_GB : Text) (container_runs : ℕ) where
  unfoldable pub memory_entry : Round → ℕ → LogEntry
  unfolding new_entry int_field float_field get_duration_micro
  memory_entry r sum = float_field (codes "size_GB") size_GB (
      int_field (codes "computed_sum") (pos sum) (
        int_field (codes "alloc_ms")
          (in_ms (get_duration_micro r.alloc_start_time r.alloc_end_time))
          (float_field (codes "alloc_GBpS")
            (speed (get_duration_micro r.alloc_start_time r.alloc_end_time))
            (int_field (codes "agg_ms") (in_ms (get_duration_micro r.agg_start_time r.agg_end_time))
              (float_field (codes "agg_GBpS")
                (speed (get_duration_micro r.agg_start_time r.agg_end_time))
                (new_entry container_runs (codes "mem_bandwidth") r.logged))))))

  -- A round, with the rest of the rounds.
  unfoldable pub log_memory : Round → Option ℕ → Bench → Option Bench
  unfolding memory_entry
  log_memory r none b = none
  log_memory r (some sum) b = some (record b {
    arrays = b.arrays ++ r.array ∷ [];
    entries = b.entries ++ memory_entry r sum ∷ [];
  })

  unfoldable pub memory_round : (size : ℕ) → Round → Bench → Option Bench
  unfolding fill_values sum_values log_memory
  memory_round size r b = log_memory r (sum_values (fill_values size 0) 0) b

  unfoldable pub memory_rounds : (size : ℕ) → (ℕ → Round) → (left run : ℕ) → Bench → Option Bench
  unfolding memory_round
  memory_rounds size rounds zero run b = some b
  memory_rounds size rounds (suc left) run b =
      then_bench (memory_round size (rounds run) b) (memory_rounds size rounds left (run + 1))

  -- `my_handler` of mem-bandwidth.cc; none where a sum overflows.
  unfoldable pub measure_memory : (ℕ → Round) → Bench → Option Bench
  unfolding memory_rounds
  measure_memory rounds b =
      then_bench (memory_rounds array_size rounds 5 0 b) (λ c. some (clean_up c))

-- What core-affinity.cc does with doubles: the sine of a value, and `+=` on an int64_t.
pub record Doubles : Type 1 where
  pub Double : Type 0
  pub of_int64 : ℤ → Double
  pub add : Double → Double → Double
  pub sin : Double → Double
  pub to_int64 : Double → ℤ

-- What a thread reads from the clock and from sched_getcpu, and when its entry is made.
pub record ThreadReading : Type 0 where
  pub agg_start_time : ℕ
  pub agg_end_time : ℕ
  pub core : ℤ
  pub logged : ℕ

-- A round of core-affinity.cc: its array, what its threads read, what pthread_setaffinity_np returns
-- for a thread on a core, and whether the first thread is the first to log.
pub record AffinityRound : Type 0 where
  pub array : ℕ
  pub reading : (thread_nb : ℕ) → ThreadReading
  pub setaffinity : (thread_nb core : ℕ) → ℕ
  pub in_order : Bool

-- The cores that are asked for, by thread, and the lines on std::cerr.
pub record Affinities : Type 0 where
  pub bench : Bench
  pub asked : List (ℕ × ℕ)
  pub errors : List Text

module _ (D : Doubles) where
  -- `sum += std::sin(values[i])`
  unfoldable pub add_sine : ℤ → ℕ → ℤ
  add_sine sum v = D.to_int64 (D.add (D.of_int64 sum) (D.sin (D.of_int64 (pos v))))

  unfoldable pub sum_sines : List ℕ → ℤ → ℤ
  unfolding add_sine
  sum_sines [] sum = sum
  sum_sines (v ∷ values) sum = sum_sines values (add_sine sum v)

  module _ (speed : ℤ → Text) (container_runs cpu_for_second_thread : ℕ) where
    unfoldable pub thread_entry : ThreadReading → List ℕ → LogEntry
    unfolding new_entry int_field float_field get_duration_micro sum_sines
    thread_entry r values =
        let agg_duration = get_duration_micro r.agg_start_time r.agg_end_time in
        int_field (codes "core") r.core (
          int_field (codes "computed_sum") (sum_sines values (pos 0)) (
            int_field (codes "agg_ms") (in_ms agg_duration) (
              float_field (codes "agg_GBpS") (speed agg_duration)
                (new_entry container_runs (codes "mem_bandwidth") r.logged))))

    -- Thread `thread_nb` is bound to its core, or a line says that it is not.
    unfoldable pub set_affinity : AffinityRound → (thread_nb : ℕ) → Affinities → Affinities
    set_affinity r thread_nb a =
        let core = thread_nb * cpu_for_second_thread in
        let rc = r.setaffinity thread_nb core in
        record a {
          asked = a.asked ++ (thread_nb, core) ∷ [];
          errors =
              if rc == 0
              then a.errors
              else a.errors ++ (codes "Error calling pthread_setaffinity_np: " ++ print_ℕ rc) ∷ [];
        }

    abbrev pub in_log_order : Bool → LogEntry → LogEntry → List LogEntry
    in_log_order true first second = first ∷ second ∷ []
    in_log_order false first second = second ∷ first ∷ []

    -- A round: two threads read the same array, and are joined.
    unfoldable pub affinity_round : ℕ → AffinityRound → Affinities → Affinities
    unfolding fill_values thread_entry set_affinity
    affinity_round size r a =
        let values = fill_values size 0 in
        let set = set_affinity r 1 (set_affinity r 0 a) in
        record set {
          bench = record a.bench {
            arrays = a.bench.arrays ++ r.array ∷ [];
            entries =
                a.bench.entries
                ++ in_log_order r.in_order (thread_entry (r.reading 0) values)
                    (thread_entry (r.reading 1) values);
          };
        }

    unfoldable pub affinity_rounds :
        ℕ → (ℕ → AffinityRound) → (left run : ℕ) → Affinities → Affinities
    unfolding affinity_round
    affinity_rounds size rounds zero run a = a
    affinity_rounds size rounds (suc left) run a =
        affinity_rounds size rounds left (run + 1) (affinity_round size (rounds run) a)

    -- `my_handler` of core-affinity.cc.
    unfoldable pub measure_affinity : (ℕ → AffinityRound) → Affinities → Affinities
    unfolding affinity_rounds
    measure_affinity rounds a =
        let b = affinity_rounds array_size rounds 5 0 a in record b { bench = clean_up b.bench }
