-- ===== src/Playground/Columns/Reading.antt =====
-- What the loop of code/playground/parquet-raw-reader.cc and parquet-arrow-reader.cc has read.
use lab_cpp.Base.{
  ℕ, ◌+◌, ◌≡◌, refl, sym, ◌∙◌, Bool-cases, inl, inr, some, List, [], ◌∷◌, ◌++◌, length, weigh,
  weigh-append, weigh-empty, length-append, ltb, arith,
}
use lab_cpp.Base.Status.{Result}
use lab_cpp.Metrics.{Impl}
use lab_cpp.Download.Fetch.{DownloadResponse}
use lab_cpp.Parquet.{Ending, ends, RgStartMap, ColChunckFile, get_column_chunck_files}
use lab_cpp.Playground.Columns.{
  Handler, read_file, process_file, process_files, wait_download, process_got, process_turn,
  after_turn, process_chuncks,
}

-- The files that the successive turns make of what ProcessResponses returns, in their order.
pub data Gets
    : RgStartMap → List (List (Result DownloadResponse)) → List ColChunckFile → Type 0 where
  none_left : {m : RgStartMap} → Gets m [] []
  gets :
      {m after : RgStartMap} {results : List (Result DownloadResponse)}
      {batches : List (List (Result DownloadResponse))} {files rest : List ColChunckFile}
      → get_column_chunck_files m results ≡ ends (files, after)
      → Gets after batches rest
      → Gets m (results ∷ batches) (files ++ rest)

module _ (clock : ℕ → ℕ) (thread : ℕ) (read : ColChunckFile → Ending ℕ) (rows : ColChunckFile → ℕ)
    (readable : (f : ColChunckFile) → read f ≡ ends (rows f)) where
  -- What a number of files adds to the counters.
  abbrev pub Adds : List ColChunckFile → Handler → Handler → Type 0
  Adds files before after =
      (after.downloaded_chuncks ≡ before.downloaded_chuncks + length files)
      × (after.rows_read ≡ before.rows_read + weigh rows files)

  read_file-adds :
      (n : ℕ) (h : Handler)
      → (after : Handler) × (read_file clock thread read (ends n) h ≡ ends after)
        × (after.downloaded_chuncks ≡ h.downloaded_chuncks + 1)
        × (after.rows_read ≡ h.rows_read + n)
        × (after.rg_start_map ≡ h.rg_start_map)
  unfolding read_file
  read_file-adds n h = (_, refl, refl, refl, refl)

  process_file-adds :
      (f : ColChunckFile) (h : Handler)
      → (after : Handler) × (process_file clock thread read f h ≡ ends after)
        × (after.downloaded_chuncks ≡ h.downloaded_chuncks + 1)
        × (after.rows_read ≡ h.rows_read + rows f)
        × (after.rg_start_map ≡ h.rg_start_map)
  unfolding process_file read_file
  process_file-adds f h = rw (readable f, process_file) (read_file-adds (rows f) _)

  process_files-Adds :
      (files : List ColChunckFile) (h : Handler)
      → (after : Handler) × (process_files clock thread read files h ≡ ends after)
        × Adds files h after
        × (after.rg_start_map ≡ h.rg_start_map)
  unfolding process_files
  process_files-Adds [] h = (h, refl, (omega arith, omega arith), refl)
  process_files-Adds (f ∷ files) h =
      let (mid, e, c, r, m) = process_file-adds f h in
      let (after, g, (d, s), n) = process_files-Adds files mid in
      (after, rw e g, (omega (arith, c, d), omega (arith, r, s)), n ∙ m)

  process_turn-Adds :
      (results : List (Result DownloadResponse)) (files : List ColChunckFile) (m : RgStartMap)
      (h : Handler)
      → get_column_chunck_files h.rg_start_map results ≡ ends (files, m)
      → (after : Handler) × (process_turn clock thread read results h ≡ ends after)
        × Adds files h after
        × (after.rg_start_map ≡ m)
  unfolding process_turn process_got wait_download
  process_turn-Adds results files m h e =
      rw (e, process_turn, process_got) (process_files-Adds files _)

  pub chuncks-read :
      {m : RgStartMap} {batches : List (List (Result DownloadResponse))}
      {files : List ColChunckFile} (num_row_groups : ℕ) (h : Handler)
      → Gets m batches files
      → h.rg_start_map ≡ m
      → h.downloaded_chuncks + length files ≡ num_row_groups
      → (after : Handler) × (process_chuncks clock thread read num_row_groups batches h
          ≡ some (ends after))
        × Adds files h after
  unfolding process_chuncks after_turn
  chuncks-read n h none_left q e = (h, ground arith, (omega arith, omega arith))
  chuncks-read n h
        (gets {results = results} {batches = batches} {files = files} {rest = rest} g more) q e =
      elim (Bool-cases (ltb h.downloaded_chuncks n)) [
        | inl l ↦
            let (mid, t, (c, r), k) = process_turn-Adds results files _ h (rw (sym q) at g) in
            let (after, p, (d, s)) =
              chuncks-read n mid more k (omega (arith, c, e, length-append files rest)) in
            (
              after,
              rw (l, t, process_chuncks, after_turn) p,
              (
                omega (arith, c, d, length-append files rest),
                omega (arith, r, s, weigh-append rows files rest),
              ),
            )
        | inr l ↦ (
          h,
          rw (l, process_chuncks, after_turn) refl,
          (ground (arith, e), omega (arith, weigh-empty rows (files ++ rest) (ground (arith, e)))),
        )
      ]

  abbrev pub starting : Impl → RgStartMap → Handler
  starting metrics map = record {
    metrics = metrics;
    rg_start_map = map;
    downloaded_chuncks = 0;
    rows_read = 0;
    ticks = 0;
  }

  -- Every row of the column is counted: if what the calls of ProcessResponses return makes as many files
  -- as there are row groups, in whatever batches, and the library can read every file, the loop ends;
  -- it has then counted each file, and has read as many rows as the files have together.
  pub all_rows_read :
      {m : RgStartMap} {batches : List (List (Result DownloadResponse))}
      {files : List ColChunckFile} (metrics : Impl)
      → Gets m batches files
      → (after : Handler) × (process_chuncks clock thread read
            (length files)
            batches
            (starting metrics m)
          ≡ some (ends after))
        × (after.downloaded_chuncks ≡ length files)
        × (after.rows_read ≡ weigh rows files)
  all_rows_read {m} {files = files} metrics g =
      let (after, e, (c, r)) =
        chuncks-read (length files) (starting metrics m) g refl (omega arith) in
      (after, e, omega (arith, c), omega (arith, r))
