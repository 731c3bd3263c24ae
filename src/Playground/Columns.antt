-- ===== src/Playground/Columns.antt =====
-- The loop of code/playground/parquet-raw-reader.cc and parquet-arrow-reader.cc, which reads each
-- column chunck when it has arrived. `read_column_chunck` is the parquet library's work, and a
-- parameter: the number of its rows, or the end of the process where ValueOrDie or
-- PARQUET_THROW_NOT_OK meets an error. `clock` gives the times in the order in which they are read.
pub mod Reading
pub mod Query
use lab_cpp.Base.{
  ℕ, ◌+◌, Bool, true, false, Option, none, some, List, [], ◌∷◌, ◌++◌, if◌then◌else◌, ltb,
}
use lab_cpp.Base.Int.{pos}
use lab_cpp.Base.Text.{Text, codes}
use lab_cpp.Base.Status.{Result}
use lab_cpp.Base.Decimal.{print_ℕ}
use lab_cpp.Metrics.{Impl, enter_phase, exit_phase, new_event}
use lab_cpp.Download.Fetch.{S3Path, DownloadRequest, DownloadResponse}
use lab_cpp.Parquet.{
  Ending, ends, dies, bad_optional_access, RgStartMap, ColumnChunckMeta, ColChunckFile,
  download_column_chunck, get_column_chunck_files,
}

-- What the handler has: its metrics, `rg_start_map`, its two counters, and how often it has read the
-- clock.
pub record Handler : Type 0 where
  pub metrics : Impl
  pub rg_start_map : RgStartMap
  pub downloaded_chuncks : ℕ
  pub rows_read : ℕ
  pub ticks : ℕ

abbrev pub and_then : Ending Handler → (Handler → Ending Handler) → Ending Handler
and_then (ends h) f = f h
and_then (dies message) f = dies message
and_then bad_optional_access f = bad_optional_access

-- The loop that schedules the chuncks of one column, from row group `i` on: its requests, and the map.
unfoldable pub download_chuncks :
    S3Path → ℕ → ℕ → List ColumnChunckMeta → RgStartMap → List DownloadRequest × RgStartMap
unfolding download_column_chunck
download_chuncks path column i [] m = ([], m)
download_chuncks path column i (meta ∷ row_groups) m =
    let (request, entered) =
      download_column_chunck meta path (record { row_group = pos i; column = pos column }) m in
    let (requests, last) = download_chuncks path column (i + 1) row_groups entered in
    (request ∷ requests, last)

module _ (clock : ℕ → ℕ) (thread : ℕ) (read_column_chunck : ColChunckFile → Ending ℕ) where
  -- The end of a file's turn, once its rows are read.
  unfoldable pub read_file : Ending ℕ → Handler → Ending Handler
  unfolding exit_phase
  read_file (ends rows) h = ends (record h {
    metrics = exit_phase (clock h.ticks) (codes "proc") h.metrics;
    rows_read = h.rows_read + rows;
    downloaded_chuncks = h.downloaded_chuncks + 1;
    ticks = h.ticks + 1;
  })
  read_file (dies message) h = dies message
  read_file bad_optional_access h = bad_optional_access

  unfoldable pub process_file : ColChunckFile → Handler → Ending Handler
  unfolding enter_phase new_event read_file
  process_file file h = read_file (read_column_chunck file) (record h {
    metrics =
        new_event (clock (h.ticks + 1)) thread (codes "starting_proc")
          (enter_phase (clock h.ticks) (codes "proc") h.metrics);
    ticks = h.ticks + 2;
  })

  unfoldable pub process_files : List ColChunckFile → Handler → Ending Handler
  unfolding process_file
  process_files [] h = ends h
  process_files (file ∷ files) h = and_then (process_file file h) (process_files files)

  unfoldable pub wait_download : Handler → Handler
  unfolding enter_phase exit_phase
  wait_download h = record h {
    metrics =
        exit_phase (clock (h.ticks + 1)) (codes "wait_dl")
          (enter_phase (clock h.ticks) (codes "wait_dl") h.metrics);
    ticks = h.ticks + 2;
  }

  -- A turn of the loop, on what ProcessResponses returns.
  unfoldable pub process_got : Ending (List ColChunckFile × RgStartMap) → Handler → Ending Handler
  unfolding process_files
  process_got (ends (files, map)) h = process_files files (record h { rg_start_map = map })
  process_got (dies message) h = dies message
  process_got bad_optional_access h = bad_optional_access

  unfoldable pub process_turn : List (Result DownloadResponse) → Handler → Ending Handler
  unfolding wait_download process_got get_column_chunck_files
  process_turn results h =
      process_got (get_column_chunck_files h.rg_start_map results) (wait_download h)

  -- The loop's test, and what a turn has come to.
  unfoldable pub after_turn :
      Bool
      → Handler
      → Ending Handler
      → (Handler → Option (Ending Handler))
      → Option (Ending Handler)
  after_turn false h turn loop = some (ends h)
  after_turn true h (ends after) loop = loop after
  after_turn true h (dies message) loop = some (dies message)
  after_turn true h bad_optional_access loop = some bad_optional_access

  -- The loop, over what the successive calls of ProcessResponses return; none where it is blocked in
  -- `wait` for ever.
  unfoldable pub process_chuncks :
      ℕ → List (List (Result DownloadResponse)) → Handler → Option (Ending Handler)
  unfolding after_turn process_turn
  process_chuncks num_row_groups [] h =
      if ltb h.downloaded_chuncks num_row_groups then none else some (ends h)
  process_chuncks num_row_groups (results ∷ batches) h =
      after_turn (ltb h.downloaded_chuncks num_row_groups) h (process_turn results h)
        (process_chuncks num_row_groups batches)

-- The line behind the loop.
unfoldable pub closing_line : Handler → Text
closing_line h =
    codes "downloaded_chuncks:"
    ++ (print_ℕ h.downloaded_chuncks ++ (codes "/rows_read:" ++ print_ℕ h.rows_read))
