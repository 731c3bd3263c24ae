-- ===== src/Examples/Columns.antt =====
-- Queries of code/playground over a small object.
use lab_cpp.Base.{ℕ, ◌+◌, ◌*◌, ◌≡◌, refl, none, some, List, [], ◌∷◌, weigh, if◌then◌else◌, ltb}
use lab_cpp.Base.Int.{pos, ◌+ℤ◌, ◌-ℤ◌}
use lab_cpp.Base.Text.{codes, text_eq}
use lab_cpp.Base.Status.{ok}
use lab_cpp.PartialFile
use lab_cpp.PartialFile.{PartialFile}
use lab_cpp.Metrics
use lab_cpp.Download.Fetch.{S3Path, DownloadResponse}
use lab_cpp.Parquet.{
  ends, is_blank, ColumnChunckMeta, ColChunckFile, footer_file, get_column_chunck_files, find,
  chunck_request, download_column_chunck, turn, touched, file_of, then_file, emplace, ids_of,
}
use lab_cpp.Playground.Bandwidth.{Settings, scheduled_chuncks, asks_for, chuncks_partition}
use lab_cpp.Playground.Bandwidth.Handling.{HandlerTimes}
use lab_cpp.Playground.Columns.{Handler, download_chuncks}
use lab_cpp.Playground.Columns.Reading.{Gets, none_left, gets}
use lab_cpp.Playground.Columns.Query.{my_handler, query_reads_all}

abbrev path : S3Path
path = record { bucket = codes "b"; key = codes "k" }

abbrev settings : Settings
settings = record {
  nb_chunck = 3;
  max_parallel = 2;
  chunk_size = 2;
  memory_size = pos 128;
  path = path;
}

chuncks_partition_example :
    weigh (asks_for 5) (scheduled_chuncks settings) ≡ (if ltb 5 (3 * 2) then 1 else 0)
chuncks_partition_example = chuncks_partition settings 5

abbrev arrived : ℕ → DownloadResponse
arrived i = record {
  request = record { range_start = some (pos i); range_end = pos (i + 1); path = path };
  raw_data = i ∷ (i + 1) ∷ [];
  file_size = pos 6;
}

abbrev arrivals : List (List DownloadResponse)
arrivals = (arrived 2 ∷ []) ∷ (arrived 4 ∷ arrived 0 ∷ []) ∷ []

abbrev footer : DownloadResponse
footer = record {
  request = record { range_start = none; range_end = pos 4; path = path };
  raw_data = 6 ∷ 7 ∷ 8 ∷ 9 ∷ [];
  file_size = pos 10;
}

-- The response of an initialised connection.
abbrev connection : DownloadResponse
connection = record {
  request = record {
    range_start = none;
    range_end = pos 0;
    path = record { bucket = []; key = [] };
  };
  raw_data = [];
  file_size = pos 0;
}

abbrev one_group : PartialFile → List ColumnChunckMeta
one_group file = record { file_offset = pos 4; total_compressed_size = pos 2 } ∷ []

abbrev column_response : DownloadResponse
column_response = record {
  request = record { range_start = some (pos 4); range_end = pos 6; path = path };
  raw_data = 4 ∷ 5 ∷ 6 ∷ [];
  file_size = pos 10;
}

abbrev column_file : ColChunckFile
column_file = record {
  row_group = pos 0;
  column = pos 1;
  file = record {
    position = pos 0;
    chuncks = record { start_position = pos 4; buffer = 4 ∷ 5 ∷ 6 ∷ [] } ∷ [];
    size = pos 10;
  };
}

got :
    Gets
      (download_chuncks path 1 0 (one_group (footer_file footer)) []).1
      ((ok connection ∷ ok column_response ∷ []) ∷ [])
      (column_file ∷ [])
unfolding get_column_chunck_files download_chuncks download_column_chunck chunck_request is_blank
    turn touched file_of then_file emplace ids_of find text_eq PartialFile.construct ◌+ℤ◌ ◌-ℤ◌
got = gets refl none_left

query_reads_all_example :
    (last : Handler) × (my_handler
        (λ t. t)
        1
        (λ f. ends 20)
        one_group
        path
        1
        (Metrics.construct 0)
        []
        ((ok connection ∷ []) ∷ (ok footer ∷ ok connection ∷ []) ∷ [])
        ((ok connection ∷ ok column_response ∷ []) ∷ [])
      ≡ some (ends last))
    × (last.downloaded_chuncks ≡ 1)
    × (last.rows_read ≡ 20 + 0)
unfolding is_blank
query_reads_all_example =
    query_reads_all (λ t. t) 1 (λ f. ends 20) (λ f. 20) one_group path 1 (Metrics.construct 0) []
      ((connection ∷ []) ∷ []) [] (connection ∷ []) footer
      ((ok connection ∷ ok column_response ∷ []) ∷ []) (column_file ∷ []) (λ f. refl)
      ((refl, tt), tt) tt (refl, tt) refl refl got refl

abbrev handler_times : HandlerTimes
handler_times = record { start_time = 0; end_time = 2000000; logged = 3000000 }
