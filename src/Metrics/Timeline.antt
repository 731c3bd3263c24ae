-- ===== src/Metrics/Timeline.antt =====
-- PrintEvents of code/util/metrics.cc, and MetricsManager::Print. Events with one time in one thread
-- print alike, so that it does not show that std::sort may exchange them. How a thread number is
-- printed is a parameter.
use lab_cpp.Base.{
  ℕ, ◌+◌, ◌≡◌, sym, ap, ◌∙◌, none, some, Option-cases, inl, inr, List, [], ◌∷◌, ◌++◌, append-nil,
  append_assoc, if◌then◌else◌, ltb, arith, length, length-append, weigh,
}
use lab_cpp.Base.Int.{ℤ, ltb_ℤ}
use lab_cpp.Base.Key.{nat_key}
use lab_cpp.Base.StdMap
use lab_cpp.Base.StdMap.{StdMap}
use lab_cpp.Base.StdMap.Laws.{total, total-set_new, total-set_old}
use lab_cpp.Base.Text.{Text, codes}
use lab_cpp.Base.Decimal.{print_ℤ}
use lab_cpp.Toolbox.{get_duration_ms}
use lab_cpp.Logger.{LogEntry}
use lab_cpp.Metrics.{Impl, MetricEvent, clone, copy_onto, print_phases, print_init_connections}

-- `thread_map[event.thread_id].push_back(event)` for each event.
unfoldable pub group_event : MetricEvent → StdMap ℕ (List MetricEvent) → StdMap ℕ (List MetricEvent)
group_event event thread_map = elim (StdMap.find event.thread_id thread_map) [
  | none ↦ StdMap.set event.thread_id (event ∷ []) thread_map
  | some group ↦ StdMap.set event.thread_id (group ++ event ∷ []) thread_map
]

unfoldable pub group_events :
    List MetricEvent → StdMap ℕ (List MetricEvent) → StdMap ℕ (List MetricEvent)
unfolding group_event
group_events [] thread_map = thread_map
group_events (event ∷ events) thread_map = group_events events (group_event event thread_map)

-- std::sort by the timestamps.
unfoldable pub insert_sorted : MetricEvent → List MetricEvent → List MetricEvent
insert_sorted a [] = a ∷ []
insert_sorted a (b ∷ events) =
    if ltb a.timestamp b.timestamp then a ∷ b ∷ events else b ∷ insert_sorted a events

unfoldable pub sort_onto : List MetricEvent → List MetricEvent → List MetricEvent
unfolding insert_sorted
sort_onto sorted [] = sorted
sort_onto sorted (a ∷ events) = sort_onto (insert_sorted a sorted) events

unfoldable pub sort : List MetricEvent → List MetricEvent
unfolding sort_onto
sort events = sort_onto [] events

abbrev pub first_timestamp : List MetricEvent → ℕ
first_timestamp [] = 0
first_timestamp (event ∷ _) = event.timestamp

abbrev pub first_thread : List MetricEvent → ℕ
first_thread [] = 0
first_thread (event ∷ _) = event.thread_id

-- `insert` of a multimap: behind the entries with keys up to this one.
unfoldable pub insert_multi :
    ℤ → List MetricEvent → List (ℤ × List MetricEvent) → List (ℤ × List MetricEvent)
insert_multi key value [] = (key, value) ∷ []
insert_multi key value ((k, v) ∷ map) =
    if ltb_ℤ key k then (key, value) ∷ (k, v) ∷ map else (k, v) ∷ insert_multi key value map

unfoldable pub sort_threads :
    ℕ → StdMap ℕ (List MetricEvent) → List (ℤ × List MetricEvent) → List (ℤ × List MetricEvent)
unfolding sort insert_multi
sort_threads ref_time [] sorted_threads = sorted_threads
sort_threads ref_time ((id, events) ∷ rest) sorted_threads =
    let metric_events = sort events in
    let first_time = get_duration_ms ref_time (first_timestamp metric_events) in
    sort_threads ref_time rest (insert_multi first_time metric_events sorted_threads)

-- What a line shows of its events: the time since the one before.
unfoldable pub steps : ℕ → List MetricEvent → List ℤ
steps previous_time [] = []
steps previous_time (event ∷ events) =
    get_duration_ms previous_time event.timestamp ∷ steps event.timestamp events

unfoldable pub print_steps : List ℤ → Text
print_steps [] = []
print_steps (step ∷ rest) = codes "," ++ print_ℤ step ++ print_steps rest

unfoldable pub event_lines : (ℕ → Text) → ℕ → List (ℤ × List MetricEvent) → List Text
unfolding steps print_steps
event_lines print_thread ref_time [] = []
event_lines print_thread ref_time ((key, events) ∷ rest) =
    (print_thread (first_thread events) ++ print_steps (steps ref_time events))
    ∷ event_lines print_thread ref_time rest

-- The threads with their events, as PrintEvents prints them.
unfoldable pub timeline : Impl → List (ℤ × List MetricEvent)
unfolding clone group_events sort_threads
timeline m = sort_threads m.ref_time (group_events (clone m.events) []) []

unfoldable pub print_events : (ℕ → Text) → Impl → Impl
unfolding timeline event_lines
print_events print_thread m = record m {
  out = m.out ++ event_lines print_thread m.ref_time (timeline m);
}

-- MetricsManager::Print, which leaves the downloads out.
unfoldable pub print : (ℕ → Text) → (LogEntry → Text) → ℕ → ℕ → Impl → Impl
unfolding print_events print_init_connections print_phases
print print_thread render container_runs now m =
    print_phases render container_runs now
      (print_init_connections render container_runs (print_events print_thread m))

clone_lem : (vect : List MetricEvent) (onto : List MetricEvent) → copy_onto onto vect ≡ onto ++ vect
unfolding copy_onto
clone_lem [] onto = sym (append-nil onto)
clone_lem (item ∷ vect) onto =
    clone_lem vect (onto ++ item ∷ []) ∙ append_assoc onto (item ∷ []) vect

abbrev pub sizes : List (ℤ × List MetricEvent) → ℕ
sizes = weigh (λ t. length t.1)

group_event-total :
    (event : MetricEvent) (m : StdMap ℕ (List MetricEvent))
    → total length (group_event event m) ≡ total length m + 1
unfolding group_event
group_event-total event m = elim (Option-cases (StdMap.find event.thread_id m)) [
  | inl e ↦
      rw (e, group_event) (omega (arith, total-set_new length event.thread_id (event ∷ []) m e))
  | inr (g, e) ↦
      rw (e, group_event)
        (omega (
          arith,
          total-set_old length event.thread_id (g ++ event ∷ []) g m e,
          length-append g (event ∷ []),
        ))
]

group_events-total :
    (events : List MetricEvent) (m : StdMap ℕ (List MetricEvent))
    → total length (group_events events m) ≡ total length m + length events
unfolding group_events
group_events-total [] m = omega arith
group_events-total (event ∷ events) m =
    omega (arith, group_events-total events (group_event event m), group_event-total event m)

insert_sorted-length :
    (a : MetricEvent) (events : List MetricEvent)
    → length (insert_sorted a events) ≡ length events + 1
unfolding insert_sorted
insert_sorted-length a [] = omega arith
insert_sorted-length a (b ∷ events) = ground (arith, insert_sorted-length a events)

sort_onto-length :
    (sorted events : List MetricEvent)
    → length (sort_onto sorted events) ≡ length sorted + length events
unfolding sort_onto
sort_onto-length sorted [] = omega arith
sort_onto-length sorted (a ∷ events) =
    omega (arith, sort_onto-length (insert_sorted a sorted) events, insert_sorted-length a sorted)

insert_multi-sizes :
    (key : ℤ) (value : List MetricEvent) (map : List (ℤ × List MetricEvent))
    → sizes (insert_multi key value map) ≡ sizes map + length value
unfolding insert_multi
insert_multi-sizes key value [] = omega arith
insert_multi-sizes key value ((k, v) ∷ map) = ground (arith, insert_multi-sizes key value map)

sort_threads-sizes :
    (ref_time : ℕ) (m : StdMap ℕ (List MetricEvent)) (sorted : List (ℤ × List MetricEvent))
    → sizes (sort_threads ref_time m sorted) ≡ sizes sorted + total length m
unfolding sort_threads
sort_threads-sizes ref_time [] sorted = omega arith
sort_threads-sizes ref_time ((id, events) ∷ rest) sorted =
    let key = get_duration_ms ref_time (first_timestamp (sort_onto [] events)) in
    omega (
      arith,
      sort_threads-sizes ref_time rest (insert_multi key (sort_onto [] events) sorted),
      insert_multi-sizes key (sort_onto [] events) sorted,
      sort_onto-length [] events,
    )

-- The lines of PrintEvents show as many events together as have been recorded since the last reset.
pub timeline-length : (m : Impl) → sizes (timeline m) ≡ length m.events
unfolding timeline clone
timeline-length m = omega (
  arith,
  sort_threads-sizes m.ref_time (group_events (copy_onto [] m.events) []) [],
  group_events-total (copy_onto [] m.events) [],
  ap length (clone_lem m.events []),
)
