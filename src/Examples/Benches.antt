-- ===== src/Examples/Benches.antt =====
-- Runs of the programs of code/playground that measure memory and threads.
use lab_cpp.Base.{
  ℕ, zero, suc, ◌+◌, ◌/◌, ◌≡◌, refl, false, some, [], ltb, if◌then◌else◌, length, weigh,
}
use lab_cpp.Base.Int.{ℤ, pos, negsuc}
use lab_cpp.Base.Status.{ok, err, out_of_memory}
use lab_cpp.Base.Text.{Text}
use lab_cpp.Playground.Pages.{System, Line, Allocs, speed_buffers}
use lab_cpp.Playground.Aggregate.{
  Round, Bench, measure_memory, Doubles, AffinityRound, Affinities, measure_affinity,
}
use lab_cpp.Playground.Aggregate.Sums.{reports}
use lab_cpp.Playground.Aggregate.Memory.{memory_measured}
use lab_cpp.Playground.Aggregate.Affinity.{IsCutting, sines_cut}

-- Each buffer stands two pages above the one before, as long as there are pages; the memory that is
-- given back is used again.
abbrev heap : System
heap = record {
  World = ℕ;
  allocate_buffer = λ size w. (if ltb w 1_048_576 then ok w else err out_of_memory [], w + 8_192);
  memset = λ address value size w. w;
  release = λ buffers w. 4_096;
  now = λ w. (0, w);
}

abbrev unused : Allocs heap (pos 2) (pos 8_192) Line
unused = record { world = 0; allocated_pages = []; buffers = []; out = [] }

abbrev measured : Allocs heap (pos 2) (pos 8_192) Line
measured = (speed_buffers heap (pos 2) (pos 8_192) 1 2 unused).1

abbrev no_bench : Bench
no_bench = record { arrays = []; released = []; entries = [] }

abbrev quick : ℕ → Round
quick run = record {
  alloc_start_time = 0;
  alloc_end_time = 2_000_000;
  agg_start_time = 3_000_000;
  agg_end_time = 4_000_000;
  array = run;
  logged = 0;
}

abbrev no_text : ℤ → Text
no_text micro = []

memory_measured_example :
    (c : Bench) × (measure_memory no_text [] 1 quick no_bench ≡ some c)
    × (length c.entries ≡ 0 + 5)
    × (weigh (reports (pos 35_184_367_894_528)) c.entries ≡ 0 + 5)
    × (c.arrays ≡ [])
    × (length c.released ≡ 0 + 0 + 5)
memory_measured_example = memory_measured no_text [] 1 quick no_bench

-- Doubles in units of one half; every sine is a half.
abbrev cut_half : ℤ → ℤ
cut_half (pos n) = pos (n / 2)
cut_half (negsuc n) = negsuc n

abbrev plus_half : ℤ → ℤ → ℤ
plus_half (pos zero) d = d
plus_half (pos (suc n)) d = pos (suc n)
plus_half (negsuc n) d = negsuc n

abbrev halves : Doubles
halves = record {
  Double = ℤ;
  of_int64 = λ n. n;
  add = plus_half;
  sin = λ d. pos 1;
  to_int64 = cut_half;
}

halves_cut : IsCutting halves
halves_cut = record {
  IsFraction = λ d. d ≡ pos 1;
  sin_fraction = λ v h. refl;
  zero_add = λ d. refl;
  cut = λ d e. rw e refl;
}

abbrev on_core : ℕ → AffinityRound
on_core run = record {
  array = run;
  reading = λ thread_nb. record {
    agg_start_time = 0;
    agg_end_time = 1_000_000;
    core = pos thread_nb;
    logged = 0;
  };
  setaffinity = λ thread_nb core. 0;
  in_order = false;
}

abbrev unbound : Affinities
unbound = record { bench = no_bench; asked = []; errors = [] }

sines_cut_example :
    let c = measure_affinity halves no_text 1 1 on_core unbound in
    (length c.bench.entries ≡ 0 + 10) × (weigh (reports (pos 0)) c.bench.entries ≡ 0 + 10)
sines_cut_example = sines_cut halves halves_cut no_text 1 1 on_core unbound
