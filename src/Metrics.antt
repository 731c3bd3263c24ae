-- ===== src/Metrics.antt =====
-- code/util/metrics.h and code/util/metrics.cc: MetricsManager, whose methods forward to
-- MetricsManager::Impl. The clock and the number of the calling thread are arguments; each method of
-- concurrent_vector holds its lock throughout and is one step.
pub mod Phases
pub mod Timeline
use lab_cpp.Base.{ℕ, Option, none, some, List, [], ◌∷◌, ◌++◌}
use lab_cpp.Base.Int.{ℤ, pos, ◌+ℤ◌}
use lab_cpp.Base.Key.{nat_key, text_key}
use lab_cpp.Base.StdMap
use lab_cpp.Base.StdMap.{StdMap}
use lab_cpp.Base.Text.{Text, codes}
use lab_cpp.Base.Decimal.{print_ℤ}
use lab_cpp.Toolbox.{get_duration_ms}
use lab_cpp.Logger.{LogEntry, new_entry, int_field, str_field, float_field, log}

-- concurrent_vector<T>
unfoldable pub push_back {ℓ} : {T : Type ℓ} → T → List T → List T
push_back elem vect = vect ++ elem ∷ []

-- The loop of `clone`, from what it has copied.
unfoldable pub copy_onto {ℓ} : {T : Type ℓ} → List T → List T → List T
unfolding push_back
copy_onto copy_vect [] = copy_vect
copy_onto copy_vect (item ∷ vect) = copy_onto (push_back item copy_vect) vect

unfoldable pub clone {ℓ} : {T : Type ℓ} → List T → List T
unfolding copy_onto
clone vect = copy_onto [] vect

pub record MetricEvent : Type 0 where
  pub timestamp : ℕ
  pub thread_id : ℕ
  pub type : Text

pub record Download : Type 0 where
  pub timestamp : ℕ
  pub thread_id : ℕ
  pub duration_ms : ℤ
  pub size : ℤ

pub record InitConnection : Type 0 where
  pub timestamp : ℕ
  pub thread_id : ℕ
  pub result : Text
  pub total_duration_ms : ℤ
  pub resolution_time_ms : ℤ
  pub blocking_time_ms : ℤ

pub record PhaseDurations : Type 0 where
  pub durations : List ℤ
  pub started : Option ℕ

-- `out` is what has been written to std::cout.
pub record Impl : Type 0 where
  pub events : List MetricEvent
  pub downloads : List Download
  pub init_connections : List InitConnection
  pub phase_durations_map : StdMap Text PhaseDurations
  pub ref_time : ℕ
  pub out : List Text

unfoldable pub construct : ℕ → Impl
construct now = record {
  events = [];
  downloads = [];
  init_connections = [];
  phase_durations_map = [];
  ref_time = now;
  out = [];
}

unfoldable pub new_event : ℕ → ℕ → Text → Impl → Impl
unfolding push_back
new_event now thread_id type m =
    let event : MetricEvent = record { timestamp = now; thread_id = thread_id; type = type } in
    record m { events = push_back event m.events }

unfoldable pub new_download : ℕ → ℕ → ℤ → ℤ → Impl → Impl
unfolding push_back
new_download now thread_id duration_ms size m =
    let download : Download = record {
      timestamp = now;
      thread_id = thread_id;
      duration_ms = duration_ms;
      size = size;
    } in
    record m { downloads = push_back download m.downloads }

unfoldable pub new_init_connection : ℕ → ℕ → Text → ℤ → ℤ → ℤ → Impl → Impl
unfolding push_back
new_init_connection now thread_id result total_duration_ms resolution_time_ms blocking_time_ms m =
    let init_connection : InitConnection = record {
      timestamp = now;
      thread_id = thread_id;
      result = result;
      total_duration_ms = total_duration_ms;
      resolution_time_ms = resolution_time_ms;
      blocking_time_ms = blocking_time_ms;
    } in
    record m { init_connections = push_back init_connection m.init_connections }

abbrev pub say : Text → Impl → Impl
say line m = record m { out = m.out ++ line ∷ [] }

abbrev pub put_phase : Text → PhaseDurations → Impl → Impl
put_phase name phase m = record m {
  phase_durations_map = StdMap.set name phase m.phase_durations_map;
}

-- The branches of `EnterPhase` and `ExitPhase`, by what `find` and `started` give.
unfoldable pub enter_found : ℕ → Text → Option PhaseDurations → Impl → Impl
enter_found now name none m = put_phase name (record { durations = []; started = some now }) m
enter_found now name (some item) m = elim item.started [
  | some _ ↦ say (codes "Phase already entered") m
  | none ↦ put_phase name (record item { started = some now }) m
]

unfoldable pub enter_phase : ℕ → Text → Impl → Impl
unfolding enter_found
enter_phase now name m = enter_found now name (StdMap.find name m.phase_durations_map) m

unfoldable pub exit_found : ℕ → Text → Option PhaseDurations → Impl → Impl
exit_found now name none m = say (codes "Phase never entered") m
exit_found now name (some item) m = elim item.started [
  | some started ↦
      put_phase name
        (record { durations = item.durations ++ get_duration_ms started now ∷ []; started = none })
        m
  | none ↦ say (codes "Phase already exited") m
]

unfoldable pub exit_phase : ℕ → Text → Impl → Impl
unfolding exit_found
exit_phase now name m = exit_found now name (StdMap.find name m.phase_durations_map) m

-- `Reset` keeps the phases.
unfoldable pub reset : ℕ → Impl → Impl
reset now m = record m { ref_time = now; events = []; downloads = []; init_connections = [] }

-- PrintPhases: a line for each phase, then an entry with the total of each.
unfoldable pub total_duration : ℤ → List ℤ → ℤ
total_duration total_dur [] = total_dur
total_duration total_dur (dur ∷ durations) = total_duration (total_dur +ℤ dur) durations

unfoldable pub print_durations : List ℤ → Text
print_durations [] = []
print_durations (dur ∷ durations) = print_ℤ dur ++ codes "," ++ print_durations durations

unfoldable pub phase_lines : StdMap Text PhaseDurations → List Text
unfolding print_durations
phase_lines [] = []
phase_lines ((name, phase) ∷ rest) =
    (name ++ codes ":" ++ print_durations phase.durations) ∷ phase_lines rest

unfoldable pub phase_fields : StdMap Text PhaseDurations → LogEntry → LogEntry
unfolding total_duration int_field
phase_fields [] entry = entry
phase_fields ((name, phase) ∷ rest) entry =
    phase_fields rest (int_field name (total_duration (pos 0) phase.durations) entry)

unfoldable pub print_phases : (LogEntry → Text) → ℕ → ℕ → Impl → Impl
unfolding phase_lines phase_fields log new_entry
print_phases render container_runs now m =
    let entry =
      phase_fields m.phase_durations_map (new_entry container_runs (codes "phase_durations") now) in
    record m { out = log render entry (m.out ++ phase_lines m.phase_durations_map) }

-- PrintInitConnections: an entry for each connection.
unfoldable pub init_entry : ℕ → InitConnection → LogEntry
unfolding new_entry str_field int_field
init_entry container_runs event = int_field (codes "resolution_time_ms") event.resolution_time_ms (
    int_field (codes "blocking_time_ms") event.blocking_time_ms (
      int_field (codes "total_duration_ms") event.total_duration_ms (
        str_field (codes "result") event.result
          (new_entry container_runs (codes "init_connection") event.timestamp))))

unfoldable pub print_inits : (LogEntry → Text) → ℕ → List InitConnection → List Text → List Text
unfolding init_entry log
print_inits render container_runs [] out = out
print_inits render container_runs (event ∷ rest) out =
    print_inits render container_runs rest (log render (init_entry container_runs event) out)

unfoldable pub print_init_connections : (LogEntry → Text) → ℕ → Impl → Impl
unfolding print_inits clone
print_init_connections render container_runs m = record m {
  out = print_inits render container_runs (clone m.init_connections) m.out;
}

-- PrintDownloads: an entry for each download. `speed` is the text of the quotient of doubles.
unfoldable pub download_entry : (ℤ → ℤ → Text) → ℕ → Download → LogEntry
unfolding new_entry int_field float_field
download_entry speed container_runs event =
    float_field (codes "speed_MBpS") (speed event.size event.duration_ms) (
      int_field (codes "size_B") event.size (
        int_field (codes "duration_ms") event.duration_ms
          (new_entry container_runs (codes "downloads") event.timestamp)))

unfoldable pub print_each_download :
    (ℤ → ℤ → Text) → (LogEntry → Text) → ℕ → List Download → List Text → List Text
unfolding download_entry log
print_each_download speed render container_runs [] out = out
print_each_download speed render container_runs (event ∷ rest) out =
    print_each_download speed render container_runs rest
      (log render (download_entry speed container_runs event) out)

unfoldable pub print_downloads : (ℤ → ℤ → Text) → (LogEntry → Text) → ℕ → Impl → Impl
unfolding print_each_download clone
print_downloads speed render container_runs m = record m {
  out = print_each_download speed render container_runs (clone m.downloads) m.out;
}
