-- ===== src/Playground/Aggregate/Affinity.antt =====
-- What code/playground/core-affinity.cc logs.
use lab_cpp.Base.{
  ℕ, zero, suc, ◌+◌, ◌*◌, ◌≤◌, ◌<◌, ◌≡◌, refl, ◌∙◌, ap, Bool, true, false, List, length,
  length-append, weigh, weigh-append, arith,
}
use lab_cpp.Base.Int.{ℤ, pos}
use lab_cpp.Base.Text.{Text, codes, text_eq}
use lab_cpp.Logger.{LogEntry, new_entry, int_field, float_field}
use lab_cpp.Toolbox.{get_duration_micro}
use lab_cpp.Playground.Aggregate.{
  array_size, fill_values, in_ms, Doubles, add_sine, sum_sines, ThreadReading, Affinities,
  AffinityRound, thread_entry, in_log_order, affinity_round, affinity_rounds, measure_affinity,
}
use lab_cpp.Playground.Aggregate.Sums.{
  reports, new_entry-reports, int_field-reports, float_field-reports, computed_sum-reports,
}

-- What is known of doubles: the sine of a natural number is a fraction, which lies between -1 and 1
-- and is neither; 0 is added without effect; and a conversion cuts towards 0.
pub record IsCutting (D : Doubles) : Type 1 where
  pub IsFraction : D.Double → Type 0
  pub sin_fraction : (v : ℕ) → v < array_size → IsFraction (D.sin (D.of_int64 (pos v)))
  pub zero_add : (d : D.Double) → D.add (D.of_int64 (pos 0)) d ≡ d
  pub cut : (d : D.Double) → IsFraction d → D.to_int64 d ≡ pos 0

module _ (D : Doubles) (laws : IsCutting D) where
  add_sine-zero : (v : ℕ) → v < array_size → add_sine D (pos 0) v ≡ pos 0
  unfolding add_sine
  add_sine-zero v h = ap D.to_int64 (laws.zero_add _) ∙ laws.cut _ (laws.sin_fraction v h)

  sum_sines-zero :
      (left i : ℕ) → i + left ≤ array_size → sum_sines D (fill_values left i) (pos 0) ≡ pos 0
  unfolding sum_sines fill_values
  sum_sines-zero zero i h = refl
  sum_sines-zero (suc left) i h =
      ap (sum_sines D (fill_values left (i + 1))) (add_sine-zero i (omega (arith, h)))
      ∙ sum_sines-zero left (i + 1) (omega (arith, h))

  module _ (speed : ℤ → Text) (container_runs cpu_for_second_thread : ℕ) where
    fields-report :
        (core ms : ℤ) (text : Text) (entry : LogEntry)
        → reports (pos 0) (
            int_field (codes "core") core (
              int_field
                (codes "computed_sum")
                (pos 0)
                (int_field (codes "agg_ms") ms (float_field (codes "agg_GBpS") text entry))))
          ≡ reports (pos 0) entry + 1
    unfolding text_eq
    fields-report core ms text entry =
        rw
          (
            int_field-reports (pos 0) core (codes "core") _ refl,
            computed_sum-reports,
            int_field-reports (pos 0) ms (codes "agg_ms") _ refl,
            float_field-reports,
          )
          refl

    thread_entry-reports :
        (r : ThreadReading) (values : List ℕ)
        → sum_sines D values (pos 0) ≡ pos 0
        → reports (pos 0) (thread_entry D speed container_runs cpu_for_second_thread r values) ≡ 1
    unfolding thread_entry
    thread_entry-reports r values e =
        let micro = get_duration_micro r.agg_start_time r.agg_end_time in
        let entry = new_entry container_runs (codes "mem_bandwidth") r.logged in
        rw e (
          fields-report r.core (in_ms micro) (speed micro) entry
          ∙ ap (λ n. n + 1)
              (new_entry-reports (pos 0) container_runs r.logged (codes "mem_bandwidth")))

    in_log_order-reports :
        (first : Bool) (x y : LogEntry)
        → (weigh
              (reports (pos 0))
              (in_log_order D speed container_runs cpu_for_second_thread first x y)
            ≡ reports (pos 0) x + reports (pos 0) y)
          × (length (in_log_order D speed container_runs cpu_for_second_thread first x y) ≡ 2)
    in_log_order-reports true x y = (omega arith, refl)
    in_log_order-reports false x y = (omega arith, refl)

    -- What a number of rounds comes to.
    IsLogged : ℕ → Affinities → Affinities → Type 0
    IsLogged rounds a c =
        (length c.bench.entries ≡ length a.bench.entries + 2 * rounds)
        × (weigh (reports (pos 0)) c.bench.entries
            ≡ weigh (reports (pos 0)) a.bench.entries + 2 * rounds)

    affinity_round-IsLogged :
        (size : ℕ) (r : AffinityRound) (a : Affinities)
        → size ≤ array_size
        → IsLogged 1 a (affinity_round D speed container_runs cpu_for_second_thread size r a)
    unfolding affinity_round IsLogged
    affinity_round-IsLogged size r a h =
        let values = fill_values size 0 in
        let zeros : sum_sines D values (pos 0) ≡ pos 0 = sum_sines-zero size 0 (omega (arith, h)) in
        let x = thread_entry D speed container_runs cpu_for_second_thread (r.reading 0) values in
        let y = thread_entry D speed container_runs cpu_for_second_thread (r.reading 1) values in
        let both = in_log_order D speed container_runs cpu_for_second_thread r.in_order x y in
        let (sums, two) = in_log_order-reports r.in_order x y in
        (
          omega (arith, length-append a.bench.entries both, two),
          omega (
            arith,
            weigh-append (reports (pos 0)) a.bench.entries both,
            sums,
            thread_entry-reports (r.reading 0) values zeros,
            thread_entry-reports (r.reading 1) values zeros,
          ),
        )

    affinity_rounds-IsLogged :
        (size : ℕ) (rounds : ℕ → AffinityRound) (left run : ℕ) (a : Affinities)
        → size ≤ array_size
        → IsLogged left a
            (affinity_rounds D speed container_runs cpu_for_second_thread size rounds left run a)
    unfolding affinity_rounds IsLogged
    affinity_rounds-IsLogged size rounds zero run a h = (omega arith, omega arith)
    affinity_rounds-IsLogged size rounds (suc left) run a h =
        let (n, s) = affinity_round-IsLogged size (rounds run) a h in
        let (m, t) =
          affinity_rounds-IsLogged size rounds left (run + 1)
            (affinity_round D speed container_runs cpu_for_second_thread size (rounds run) a) h in
        (omega (arith, n, m), omega (arith, s, t))

    -- The sum of core-affinity.cc is 0 each time: given that the sine of a number below the size of the
    -- array is a fraction, and that a conversion to int64_t cuts towards 0, the handler logs ten
    -- entries, two for each round, and all of them give 0 as the computed sum.
    pub sines_cut :
        (rounds : ℕ → AffinityRound) (a : Affinities)
        → let c = measure_affinity D speed container_runs cpu_for_second_thread rounds a in
          (length c.bench.entries ≡ length a.bench.entries + 10)
          × (weigh (reports (pos 0)) c.bench.entries ≡ weigh (reports (pos 0)) a.bench.entries + 10)
    unfolding measure_affinity IsLogged
    sines_cut rounds a = affinity_rounds-IsLogged array_size rounds 5 0 a (omega arith)
