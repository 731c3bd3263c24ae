-- ===== src/Playground/Bandwidth.antt =====
-- code/playground/query-bandwidth.cc: the handler downloads an object in chuncks of one size, and counts
-- the bytes that arrive. `downloaded_bytes` is an int, and is kept as its residue.
pub mod Counting
pub mod Handling
use Prim.Native.Nat.{◌%◌, ◌^◌, ◌-◌}
use native.Mathlib.Nat.{mod-add-mod}
use lab_cpp.Base.{
  ℕ, zero, suc, ◌+◌, ◌*◌, ◌≡◌, ◌<◌, refl, ap, Bool, true, false, Option, none, some, List, [], ◌∷◌,
  ◌++◌, length, weigh, if◌then◌else◌, ltb, leb, ◌&&◌, map, arith,
}
use lab_cpp.Base.Int.{ℤ, pos, negsuc, ◌-ℤ◌, leb_ℤ, ◌+ℤ◌, -ℤ_parts, +ℤ_parts, eq_of_parts}
use lab_cpp.Base.Text.{Text, codes}
use lab_cpp.Base.Status.{Result, ok, err}
use lab_cpp.Logger.{LogEntry, new_entry, int_field, float_field}
use lab_cpp.Toolbox.{get_duration_ms}
use lab_cpp.Download.Range.{calculate_length}
use lab_cpp.Download.Fetch.{S3Path, DownloadRequest, DownloadResponse}
use lab_cpp.Parquet.{Ending, ends, dies, bad_optional_access}

-- The environment that the program reads.
pub record Settings : Type 0 where
  pub nb_chunck : ℕ
  pub max_parallel : ℕ
  pub chunk_size : ℕ
  pub memory_size : ℤ
  pub path : S3Path

unfoldable pub chunck : Settings → ℕ → DownloadRequest
chunck s i = record {
  range_start = some (pos (i * s.chunk_size));
  range_end = pos ((i + 1) * s.chunk_size) -ℤ pos 1;
  path = s.path;
}

-- The requests of the loop that schedules, from chunck `i` on, `left` of them.
unfoldable pub chuncks_from : Settings → ℕ → ℕ → List DownloadRequest
unfolding chunck
chuncks_from s i zero = []
chuncks_from s i (suc left) = chunck s i ∷ chuncks_from s (i + 1) left

unfoldable pub scheduled_chuncks : Settings → List DownloadRequest
unfolding chuncks_from
scheduled_chuncks s = chuncks_from s 0 s.nb_chunck

-- What the second loop has counted.
pub record Counted : Type 0 where
  pub downloaded_chuncks : ℕ
  pub downloaded_bytes : ℕ

abbrev pub int_width : ℕ
int_width = 2 ^ 32

-- An int by its residue.
unfoldable pub int_of : ℕ → ℤ
int_of n = if ltb n (2 ^ 31) then pos n else negsuc (int_width - n - 1)

-- The inner loop, over what one call of ProcessResponses returns.
unfoldable pub count_results : List (Result DownloadResponse) → Counted → Ending Counted
count_results [] c = ends c
count_results (err code message ∷ results) c = dies message
count_results (ok response ∷ results) c = count_results results (record {
  downloaded_chuncks = c.downloaded_chuncks + 1;
  downloaded_bytes = (c.downloaded_bytes + length response.raw_data) % int_width;
})

-- A turn of the second loop: its test, and what the inner loop has come to.
unfoldable pub after_batch :
    Bool → Counted → Ending Counted → (Counted → Option (Ending Counted)) → Option (Ending Counted)
after_batch false c inner loop = some (ends c)
after_batch true c (ends d) loop = loop d
after_batch true c (dies message) loop = some (dies message)
after_batch true c bad_optional_access loop = some bad_optional_access

-- The second loop, over what the successive calls of ProcessResponses return. Where they are used up
-- and chuncks are missing, the handler is blocked in `wait`.
unfoldable pub count_batches :
    ℕ → List (List (Result DownloadResponse)) → Counted → Option (Ending Counted)
unfolding count_results after_batch
count_batches nb_chunck [] c = if ltb c.downloaded_chuncks nb_chunck then none else some (ends c)
count_batches nb_chunck (results ∷ batches) c =
    after_batch (ltb c.downloaded_chuncks nb_chunck) c (count_results results c)
      (count_batches nb_chunck batches)

-- The entry at the end of the handler; the text of the speed is rapidjson's work.
unfoldable pub bandwidth_entry : (ℤ → ℤ → Text) → Settings → ℕ → ℕ → ℕ → ℕ → ℕ → Counted → LogEntry
unfolding int_field float_field new_entry int_of get_duration_ms
bandwidth_entry speed s container_runs now start_time end_time inits_completed c =
    let total_duration = get_duration_ms start_time end_time in
    let bytes = int_of c.downloaded_bytes in
    float_field (codes "speed_MBpS") (speed bytes total_duration) (
      int_field (codes "inits_completed") (pos inits_completed) (
        int_field (codes "duration_ms") total_duration (
          int_field (codes "downloaded_bytes") bytes (
            int_field (codes "MEMORY_SIZE") s.memory_size (
              int_field (codes "CHUNK_SIZE") (pos s.chunk_size) (
                int_field (codes "MAX_PARALLEL") (pos s.max_parallel) (
                  int_field (codes "NB_CHUNCK") (pos s.nb_chunck)
                    (new_entry container_runs (codes "query_bandwidth") now))))))))

-- 1 for a request that asks for byte `k` of the object: both ends of a range are asked for.
abbrev pub asks_for : ℕ → DownloadRequest → ℕ
asks_for k r = elim (r.range_start) [
  | none ↦ 0
  | some start ↦ if leb_ℤ start (pos k) && leb_ℤ (pos k) r.range_end then 1 else 0
]

chunck-asks :
    (s : Settings) (k i : ℕ)
    → asks_for k (chunck s i)
      ≡ (if leb (i * s.chunk_size) k && ltb k ((i + 1) * s.chunk_size) then 1 else 0)
unfolding chunck
chunck-asks s k i = ground (arith, -ℤ_parts (pos ((i + 1) * s.chunk_size)) (pos 1))

chuncks_from-asks :
    (s : Settings) (k i left : ℕ)
    → weigh (asks_for k) (chuncks_from s i left)
      ≡ (if leb (i * s.chunk_size) k && ltb k ((i + left) * s.chunk_size) then 1 else 0)
unfolding chuncks_from
chuncks_from-asks s k i zero = ground arith
chuncks_from-asks s k i (suc left) =
    ground (arith, chunck-asks s k i, chuncks_from-asks s k (i + 1) left)

-- The chuncks that the handler schedules partition the object's first bytes: each byte before the
-- number of chuncks times their size is asked for by one request, and no other byte by any.
pub chuncks_partition :
    (s : Settings) (k : ℕ)
    → weigh (asks_for k) (scheduled_chuncks s)
      ≡ (if ltb k (s.nb_chunck * s.chunk_size) then 1 else 0)
unfolding scheduled_chuncks
chuncks_partition s k = ground (arith, chuncks_from-asks s k 0 s.nb_chunck)
