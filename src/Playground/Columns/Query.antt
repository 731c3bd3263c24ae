-- ===== src/Playground/Columns/Query.antt =====
-- The handlers of code/playground/parquet-raw-reader.cc and parquet-arrow-reader.cc from their first
-- line to the end of their loop: GetMetadata, the downloads of a column's chuncks, and their reading.
-- `row_groups` are, of each row group, what the footer says of that column.
use lab_cpp.Base.{
  ℕ, ◌≡◌, false, refl, Option, none, some, List, [], ◌∷◌, ◌++◌, ◌+◌, map, length, weigh, arith,
}
use lab_cpp.Base.Int.{pos, eqb_ℤ}
use lab_cpp.Base.Text.{Text, codes}
use lab_cpp.Base.Status.{Result, ok}
use lab_cpp.PartialFile.{PartialFile}
use lab_cpp.Metrics.{Impl, enter_phase, exit_phase, new_event}
use lab_cpp.Download.Fetch.{S3Path, DownloadResponse}
use lab_cpp.Parquet.{
  Ending, ends, dies, bad_optional_access, is_blank, footer_file, RgStartMap, ColumnChunckMeta,
  ColChunckFile,
}
use lab_cpp.Parquet.Metadata.{AllBlank, AllBatchesBlank, get_metadata, metadata_found}
use lab_cpp.Metrics.Timeline.{print}
use lab_cpp.Logger.{LogEntry}
use lab_cpp.Playground.Columns.{Handler, closing_line, download_chuncks, process_chuncks}
use lab_cpp.Playground.Columns.Reading.{Gets, chuncks-read}

module _ (clock : ℕ → ℕ) (thread : ℕ) (read_column_chunck : ColChunckFile → Ending ℕ) where
  -- The handler before its loop, once it has the footer.
  unfoldable pub begin_reading :
      S3Path → (column : ℕ) → List ColumnChunckMeta → Impl → RgStartMap → Handler
  unfolding enter_phase exit_phase new_event download_chuncks
  begin_reading path column row_groups metrics rg_start_map = record {
    metrics = new_event (clock 2) thread (codes "start_scheduler") (
        exit_phase (clock 1) (codes "wait_foot")
          (enter_phase (clock 0) (codes "wait_foot") metrics));
    rg_start_map = (download_chuncks path column 0 row_groups rg_start_map).1;
    downloaded_chuncks = 0;
    rows_read = 0;
    ticks = 3;
  }

  unfoldable pub read_groups :
      S3Path
      → (column : ℕ) → Impl
      → RgStartMap
      → List (List (Result DownloadResponse))
      → Option (Ending (List ColumnChunckMeta))
      → Option (Ending Handler)
  unfolding begin_reading process_chuncks
  read_groups path column metrics rg_start_map batches none = none
  read_groups path column metrics rg_start_map batches (some (ends row_groups)) =
      process_chuncks clock thread read_column_chunck (length row_groups) batches
        (begin_reading path column row_groups metrics rg_start_map)
  read_groups path column metrics rg_start_map batches (some (dies message)) = some (dies message)
  read_groups path column metrics rg_start_map batches (some bad_optional_access) =
      some bad_optional_access

  -- `footer_batches` is what the calls of ProcessResponses return to GetMetadata, and `batches` what they
  -- return afterwards.
  unfoldable pub my_handler :
      (read_footer : PartialFile → List ColumnChunckMeta)
      → S3Path
      → (column : ℕ) → Impl
      → RgStartMap
      → (footer_batches batches : List (List (Result DownloadResponse))) → Option (Ending Handler)
  unfolding get_metadata read_groups
  my_handler read_footer path column metrics rg_start_map footer_batches batches =
      read_groups path column metrics rg_start_map batches (get_metadata read_footer footer_batches)

-- The lines behind the loop: an event, the counters, and the metrics.
unfoldable pub finish_query :
    (clock : ℕ → ℕ) (thread : ℕ)
    → (ℕ → Text)
    → (LogEntry → Text)
    → (container_runs : ℕ) → Handler
    → Impl
unfolding new_event print closing_line
finish_query clock thread print_thread render container_runs h =
    let m = new_event (clock h.ticks) thread (codes "processings_finished") h.metrics in
    print print_thread render container_runs (clock (h.ticks + 1))
      (record m { out = m.out ++ closing_line h ∷ [] })

-- The line that parquet-arrow-reader.cc writes before it downloads.
unfoldable pub column_line : Text → Text
column_line name = codes "col processed: " ++ name

-- The loop of read_column_chunck of parquet-raw-reader.cc, by the numbers of values that the calls of
-- ReadBatch give until HasNext is false.
unfoldable pub read_batches : List ℕ → ℕ → ℕ
read_batches [] total_values_read = total_values_read
read_batches (values_read ∷ batches) total_values_read =
    read_batches batches (total_values_read + values_read)

-- A query reads all rows of its column: if GetMetadata gets responses of connections alone until the
-- response of the footer comes, of a file that is not empty; if what comes afterwards makes one file
-- for each row group of the footer, in whatever batches; and if the library can read every file, then
-- the handler's loop ends, and it has counted every row group and the rows of all files.
pub query_reads_all :
    (clock : ℕ → ℕ) (thread : ℕ) (read : ColChunckFile → Ending ℕ) (rows : ColChunckFile → ℕ)
    (read_footer : PartialFile → List ColumnChunckMeta) (path : S3Path) (column : ℕ)
    (metrics : Impl) (rg_start_map : RgStartMap) (early : List (List DownloadResponse))
    (before after : List DownloadResponse) (footer : DownloadResponse)
    (batches : List (List (Result DownloadResponse))) (files : List ColChunckFile)
    → ((f : ColChunckFile) → read f ≡ ends (rows f))
    → AllBatchesBlank early
    → AllBlank before
    → AllBlank after
    → is_blank footer.request ≡ false
    → eqb_ℤ footer.file_size (pos 0) ≡ false
    → Gets
        (download_chuncks path column 0 (read_footer (footer_file footer)) rg_start_map).1
        batches
        files
    → length files ≡ length (read_footer (footer_file footer))
    → (last : Handler) × (my_handler clock thread read read_footer path column metrics rg_start_map
          (map (map ok) early ++ map ok (before ++ footer ∷ after) ∷ [])
          batches
        ≡ some (ends last))
      × (last.downloaded_chuncks ≡ length (read_footer (footer_file footer)))
      × (last.rows_read ≡ weigh rows files)
unfolding my_handler read_groups begin_reading
query_reads_all clock thread read rows read_footer path column metrics rg_start_map early before
      after footer batches files readable e b a f s g n =
    let (last, p, (c, r)) =
      chuncks-read clock thread read rows readable (length (read_footer (footer_file footer)))
        (begin_reading clock thread read path column (read_footer (footer_file footer)) metrics
          rg_start_map)
        g refl (omega (arith, n)) in
    (
      last,
      rw
          (
            metadata_found read_footer early before after footer [] e b a f s,
            my_handler,
            read_groups,
          )
          p,
      omega (arith, c, n),
      omega (arith, r),
    )
