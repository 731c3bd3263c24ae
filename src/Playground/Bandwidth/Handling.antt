-- ===== src/Playground/Bandwidth/Handling.antt =====
-- The handler of code/playground/query-bandwidth.cc as a whole: it waits for the connections, downloads
-- the chuncks, prints the metrics and logs its entry. `printed` is what the metrics print.
use lab_cpp.Base.{
  ℕ, ◌+◌, Bool, true, false, Option, none, some, List, [], ◌∷◌, length, if◌then◌else◌, ltb,
}
use lab_cpp.Base.Int.{ℤ}
use lab_cpp.Base.Status.{Result}
use lab_cpp.Base.Text.{Text, codes}
use lab_cpp.Logger.{LogEntry, log}
use lab_cpp.Download.Fetch.{DownloadResponse}
use lab_cpp.Download.Downloader.{SdkOptions}
use lab_cpp.Parquet.{Ending, ends, dies, bad_optional_access}
use lab_cpp.Playground.Bandwidth.{Settings, Counted, count_batches, bandwidth_entry}

-- The options of `main`, and the line that it writes.
unfoldable pub sdk_options : (is_local : Bool) → SdkOptions × List Text
sdk_options true = (
  record {
    region = codes "eu-west-1";
    endpoint_override = codes "minio:9000";
    scheme = codes "http";
  },
  codes "endpoint_override=minio:9000" ∷ [],
)
sdk_options false =
    (record { region = codes "eu-west-1"; endpoint_override = []; scheme = codes "https" }, [])

-- A turn of the first loop: its test, and the rest of the loop.
unfoldable pub after_inits : Bool → ℕ → Option ℕ → Option ℕ
after_inits false inits_completed rest = some inits_completed
after_inits true inits_completed rest = rest

-- The first loop, over what the calls of ProcessResponses return, whose results it does not look at.
unfoldable pub await_inits : ℕ → List (List (Result DownloadResponse)) → ℕ → Option ℕ
unfolding after_inits
await_inits nb_inits [] inits_completed =
    if ltb inits_completed nb_inits then none else some inits_completed
await_inits nb_inits (results ∷ batches) inits_completed =
    after_inits (ltb inits_completed nb_inits) inits_completed
      (await_inits nb_inits batches (inits_completed + length results))

-- The times that the handler reads: around the downloads, and for its entry.
pub record HandlerTimes : Type 0 where
  pub start_time : ℕ
  pub end_time : ℕ
  pub logged : ℕ

module _ (speed : ℤ → ℤ → Text) (render : LogEntry → Text) (container_runs : ℕ) where
  unfoldable pub log_downloads :
      Settings → HandlerTimes → ℕ → List Text → Ending Counted → Ending (List Text)
  unfolding bandwidth_entry log
  log_downloads s times inits_completed printed (ends c) = ends (
      log render
        (bandwidth_entry speed s container_runs times.logged times.start_time times.end_time
          inits_completed c)
        printed)
  log_downloads s times inits_completed printed (dies message) = dies message
  log_downloads s times inits_completed printed bad_optional_access = bad_optional_access

  abbrev pub then_log :
      Settings
      → HandlerTimes
      → ℕ
      → List Text
      → Option (Ending Counted)
      → Option (Ending (List Text))
  unfolding log_downloads
  then_log s times inits_completed printed none = none
  then_log s times inits_completed printed (some e) =
      some (log_downloads s times inits_completed printed e)

  unfoldable pub download_all :
      Settings
      → HandlerTimes
      → List Text
      → List (List (Result DownloadResponse))
      → Option ℕ
      → Option (Ending (List Text))
  unfolding count_batches then_log
  download_all s times printed batches none = none
  download_all s times printed batches (some inits_completed) =
      then_log s times inits_completed printed (
        count_batches s.nb_chunck batches (record { downloaded_chuncks = 0; downloaded_bytes = 0 }))

  -- What the handler has written in the end; none where it is blocked in a `wait` for ever.
  unfoldable pub measure_bandwidth :
      Settings
      → HandlerTimes
      → List Text
      → (init_batches batches : List (List (Result DownloadResponse))) → Option (Ending (List Text))
  unfolding await_inits download_all
  measure_bandwidth s times printed init_batches batches =
      download_all s times printed batches (await_inits s.max_parallel init_batches 0)
