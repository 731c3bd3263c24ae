-- ===== src/Playground/Aggregate/Memory.antt =====
-- What code/playground/mem-bandwidth.cc logs.
use mathlib.Core.Path.{subst}
use lab_cpp.Base.{
  ℕ, zero, suc, ◌+◌, ◌≡◌, refl, ◌∙◌, ap, some, [], ◌∷◌, ◌++◌, length, length-append, weigh,
  weigh-append, arith,
}
use lab_cpp.Base.Int.{ℤ, pos}
use lab_cpp.Base.Text.{Text, codes, text_eq}
use lab_cpp.Playground.Aggregate.{
  array_size, fill_values, sum_values, Round, Bench, clean_up, then_bench, memory_entry, log_memory,
  memory_round, memory_rounds, measure_memory,
}
use lab_cpp.Playground.Aggregate.Sums.{
  sum_values-twice, reports, new_entry-reports, int_field-reports, float_field-reports,
  computed_sum-reports,
}

module _ (speed : ℤ → Text) (size_GB : Text) (container_runs : ℕ) where
  memory_entry-reports :
      (r : Round) (s : ℕ) → reports (pos s) (memory_entry speed size_GB container_runs r s) ≡ 1
  unfolding memory_entry text_eq
  memory_entry-reports r s =
      rw
        (
          float_field-reports,
          computed_sum-reports,
          int_field-reports (pos s) _ (codes "alloc_ms") _ refl,
          float_field-reports,
          int_field-reports (pos s) _ (codes "agg_ms") _ refl,
          float_field-reports,
          new_entry-reports,
        )
        refl

  -- What a number of rounds comes to.
  IsMeasured : ℕ → ℕ → Bench → Bench → Type 0
  IsMeasured s runs b c =
      (length c.arrays ≡ length b.arrays + runs)
      × (c.released ≡ b.released)
      × (length c.entries ≡ length b.entries + runs)
      × (weigh (reports (pos s)) c.entries ≡ weigh (reports (pos s)) b.entries + runs)

  memory_round-IsMeasured :
      (size s : ℕ) (r : Round) (b : Bench)
      → sum_values (fill_values size 0) 0 ≡ some s
      → (c : Bench) × (memory_round speed size_GB container_runs size r b ≡ some c)
        × IsMeasured s 1 b c
  unfolding memory_round log_memory IsMeasured
  memory_round-IsMeasured size s r b e = (
    record b {
      arrays = b.arrays ++ r.array ∷ [];
      entries = b.entries ++ memory_entry speed size_GB container_runs r s ∷ [];
    },
    rw e refl,
    (
      length-append b.arrays (r.array ∷ []),
      refl,
      length-append b.entries _,
      omega (
        arith,
        weigh-append (reports (pos s)) b.entries
            (memory_entry speed size_GB container_runs r s ∷ []),
        memory_entry-reports r s,
      ),
    ),
  )

  memory_rounds-IsMeasured :
      (size s : ℕ) (rounds : ℕ → Round) (left run : ℕ) (b : Bench)
      → sum_values (fill_values size 0) 0 ≡ some s
      → (c : Bench) × (memory_rounds speed size_GB container_runs size rounds left run b ≡ some c)
        × IsMeasured s left b c
  unfolding memory_rounds IsMeasured
  memory_rounds-IsMeasured size s rounds zero run b e =
      (b, refl, (omega arith, refl, omega arith, omega arith))
  memory_rounds-IsMeasured size s rounds (suc left) run b e =
      let (c, f, (arrays, released, entries, sums)) =
        memory_round-IsMeasured size s (rounds run) b e in
      let (d, g, (arrays2, released2, entries2, sums2)) =
        memory_rounds-IsMeasured size s rounds left (run + 1) c e in
      (
        d,
        ap
              (λ o.
                then_bench o
                  (memory_rounds speed size_GB container_runs size rounds left (run + 1)))
              f
            ∙ g,
        (
          omega (arith, arrays, arrays2),
          released2 ∙ released,
          omega (arith, entries, entries2),
          omega (arith, sums, sums2),
        ),
      )

  -- mem-bandwidth.cc sums its array up rightly, in 64 bits: whatever the times and addresses, no sum
  -- overflows, the handler logs five entries, each of which gives the sum of the numbers below the
  -- size of the array, and gives back every array.
  pub memory_measured :
      (rounds : ℕ → Round) (b : Bench)
      → (c : Bench) × (measure_memory speed size_GB container_runs rounds b ≡ some c)
        × (length c.entries ≡ length b.entries + 5)
        × (weigh (reports (pos 35_184_367_894_528)) c.entries
            ≡ weigh (reports (pos 35_184_367_894_528)) b.entries + 5)
        × (c.arrays ≡ [])
        × (length c.released ≡ length b.released + length b.arrays + 5)
  unfolding measure_memory IsMeasured
  memory_measured rounds b =
      let (s, e, twice) = sum_values-twice array_size 0 0 (omega arith) in
      let right : s ≡ 35_184_367_894_528 = omega (arith, twice) in
      let (c, f, (arrays, released, entries, sums)) =
        memory_rounds-IsMeasured array_size s rounds 5 0 b e in
      (
        clean_up c,
        ap (λ o. then_bench o (λ d. some (clean_up d))) f,
        entries,
        subst (λ n. weigh (reports (pos n)) c.entries ≡ weigh (reports (pos n)) b.entries + 5) right
            sums,
        refl,
        omega (arith, arrays, ap length released, length-append c.released c.arrays),
      )
