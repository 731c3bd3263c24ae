-- ===== src/Metrics/Phases.antt =====
-- The phases of MetricsManager (code/util/metrics.cc) over a whole history of calls.
use lab_cpp.Base.{
  ℕ, ◌≡◌, refl, ◌∙◌, Bool, Option, none, some, List, [], ◌∷◌, ◌++◌, append-nil, append_assoc,
  if◌then◌else◌, arith,
}
use lab_cpp.Base.Int.{ℤ}
use lab_cpp.Base.Key.{text_key}
use lab_cpp.Base.StdMap
use lab_cpp.Base.StdMap.Laws.{find-set}
use lab_cpp.Base.Text.{Text, text_eq, text_eq_of}
use lab_cpp.Toolbox.{get_duration_ms}
use lab_cpp.Metrics.{
  Impl, PhaseDurations, construct, enter_phase, exit_phase, enter_found, exit_found,
}

-- A call of EnterPhase or ExitPhase, with the time that it reads.
pub data PhaseCall : Type 0 where
  enters : (name : Text) (now : ℕ) → PhaseCall
  exits : (name : Text) (now : ℕ) → PhaseCall

unfoldable pub call : PhaseCall → Impl → Impl
unfolding enter_phase exit_phase
call (enters name now) m = enter_phase now name m
call (exits name now) m = exit_phase now name m

unfoldable pub run : List PhaseCall → Impl → Impl
unfolding call
run [] m = m
run (c ∷ cs) m = run cs (call c m)

-- The durations that are to be measured for phase `p`, from a time at which it was entered and has
-- not been left: the first entry counts, and the first exit after it.
unfoldable pub measured : Text → Option ℕ → List PhaseCall → List ℤ
measured p since [] = []
measured p (some start) (exits name now ∷ cs) =
    if text_eq name p
    then get_duration_ms start now ∷ measured p none cs
    else measured p (some start) cs
measured p none (enters name now ∷ cs) = measured p (if text_eq name p then some now else none) cs
measured p since (_ ∷ cs) = measured p since cs

abbrev pub durations_of : Option PhaseDurations → List ℤ
durations_of none = []
durations_of (some item) = item.durations

abbrev pub started_of : Option PhaseDurations → Option ℕ
started_of none = none
started_of (some item) = item.started

abbrev pub phase : Text → Impl → Option PhaseDurations
phase p m = StdMap.find p m.phase_durations_map

-- What a phase is open since after an entry at `now`.
abbrev pub opened : Bool → ℕ → Option ℕ → Option ℕ
opened hit now (some start) = some start
opened hit now none = if hit then some now else none

-- What a phase is open since after an exit, and the durations that the exit adds.
abbrev pub left : Bool → Option ℕ → Option ℕ
left hit since = if hit then none else since

abbrev pub added : Bool → ℕ → Option ℕ → List ℤ
added hit now none = []
added hit now (some start) = if hit then get_duration_ms start now ∷ [] else []

enter_found-phase :
    (p name : Text) (now : ℕ) (o : Option PhaseDurations) (m : Impl)
    → phase name m ≡ o
    → (durations_of (phase p (enter_found now name o m)) ≡ durations_of (phase p m))
      × (started_of (phase p (enter_found now name o m))
          ≡ opened (text_eq name p) now (started_of (phase p m)))
unfolding enter_found
enter_found-phase p name now none m e = ground (
  arith,
  find-set p name (record { durations = []; started = some now }) m.phase_durations_map,
  text_eq_of name p,
)
enter_found-phase p name now (some item) m e = ground (
  arith,
  find-set p name (record item { started = some now }) m.phase_durations_map,
  text_eq_of name p,
)

exit_with :
    (p name : Text) (now : ℕ) (durations : List ℤ) (started : Option ℕ) (m : Impl)
    → phase name m ≡ some (record { durations = durations; started = started })
    → let r = exit_found now name (some (record { durations = durations; started = started })) m in
      (durations_of (phase p r)
        ≡ durations_of (phase p m) ++ added (text_eq name p) now (started_of (phase p m)))
      × (started_of (phase p r) ≡ left (text_eq name p) (started_of (phase p m)))
unfolding exit_found
exit_with p name now durations none m e =
    ground (arith, text_eq_of name p, append-nil (durations_of (phase p m)))
exit_with p name now durations (some start) m e = ground (
  arith,
  find-set p name
      (record { durations = durations ++ get_duration_ms start now ∷ []; started = none })
      m.phase_durations_map,
  text_eq_of name p,
  append-nil (durations_of (phase p m)),
)

exit_found-phase :
    (p name : Text) (now : ℕ) (o : Option PhaseDurations) (m : Impl)
    → phase name m ≡ o
    → (durations_of (phase p (exit_found now name o m))
        ≡ durations_of (phase p m) ++ added (text_eq name p) now (started_of (phase p m)))
      × (started_of (phase p (exit_found now name o m))
          ≡ left (text_eq name p) (started_of (phase p m)))
unfolding exit_found
exit_found-phase p name now none m e =
    ground (arith, text_eq_of name p, append-nil (durations_of (phase p m)))
exit_found-phase p name now (some item) m e = exit_with p name now item.durations item.started m e

run-measured :
    (p : Text) (cs : List PhaseCall) (m : Impl)
    → durations_of (phase p (run cs m))
      ≡ durations_of (phase p m) ++ measured p (started_of (phase p m)) cs
unfolding run measured
run-measured p [] m = ground (arith, append-nil (durations_of (phase p m)))
run-measured p (enters name now ∷ cs) m =
    let (d, s) = enter_found-phase p name now (phase name m) m refl in
    run-measured p cs (enter_phase now name m) ∙ (rw (d, s) (go (started_of (phase p m))))
  where
    go :
        (o : Option ℕ)
        → durations_of (phase p m) ++ measured p (opened (text_eq name p) now o) cs
          ≡ durations_of (phase p m) ++ measured p o (enters name now ∷ cs)
    go none = refl
    go (some start) = refl
run-measured p (exits name now ∷ cs) m =
    let (d, s) = exit_found-phase p name now (phase name m) m refl in
    run-measured p cs (exit_phase now name m) ∙ (rw (d, s) (go (started_of (phase p m))))
  where
    before : List ℤ
    before = durations_of (phase p m)

    go :
        (o : Option ℕ)
        → (before ++ added (text_eq name p) now o) ++ measured p (left (text_eq name p) o) cs
          ≡ before ++ measured p o (exits name now ∷ cs)
    go none = ground (arith, append-nil before)
    go (some start) = ground (
      arith,
      append-nil before,
      append_assoc before (get_duration_ms start now ∷ []) (measured p none cs),
    )

-- The durations that a new manager has recorded for a phase after any history of calls are those of
-- that phase's own calls: from its first entry, or the first after an exit, to the next exit, in
-- milliseconds. Calls for other phases, second entries and exits of a phase that is not entered
-- change none of them.
pub phases_measured :
    (p : Text) (now : ℕ) (cs : List PhaseCall)
    → durations_of (phase p (run cs (construct now))) ≡ measured p none cs
unfolding construct StdMap.find
phases_measured p now cs = run-measured p cs (construct now)
