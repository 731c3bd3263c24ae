-- ===== src/Logger.antt =====
-- code/util/logger.h and code/util/logger.cc. An entry is the list of the members that have been
-- written to it, in order; turning it into JSON is rapidjson's work, and a parameter where an entry
-- is logged. FloatField takes the text that rapidjson writes for the double.
use lab_cpp.Base.{ℕ, ◌+◌, ◌/◌, List, [], ◌∷◌, ◌++◌, ltb, if◌then◌else◌}
use lab_cpp.Base.Int.{ℤ, pos}
use lab_cpp.Base.Text.{Text, codes}

pub data Value : Type 0 where
  str : Text → Value
  int64 : ℤ → Value
  double : Text → Value

abbrev pub LogEntry : Type 0
LogEntry = List (Text × Value)

-- CONTAINER_RUNS, which counts the invocations of the container.
unfoldable pub increment_run_counter : ℕ → ℕ
increment_run_counter container_runs = container_runs + 1

unfoldable pub str_field : Text → Text → LogEntry → LogEntry
str_field key value entry = entry ++ (key, str value) ∷ []

unfoldable pub int_field : Text → ℤ → LogEntry → LogEntry
int_field key value entry = entry ++ (key, int64 value) ∷ []

unfoldable pub float_field : Text → Text → LogEntry → LogEntry
float_field key value entry = entry ++ (key, double value) ∷ []

-- The constructor: `ts`, `msg`, and `run` once the container has run.
unfoldable pub new_entry : ℕ → Text → ℕ → LogEntry
new_entry container_runs msg timestamp =
    (codes "ts", int64 (pos (timestamp / 1_000_000)))
    ∷ (codes "msg", str msg)
    ∷ (if ltb 0 container_runs then (codes "run", int64 (pos container_runs)) ∷ [] else [])

-- `Log` writes the entry as one line.
unfoldable pub log : (LogEntry → Text) → LogEntry → List Text → List Text
log render entry out = out ++ render entry ∷ []
