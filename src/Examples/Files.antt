-- ===== src/Examples/Files.antt =====
-- Partial files of code/util/partial-file.cc, and those that code/aws/parquet-helpers.h makes.
use lab_cpp.Base.{ℕ, ◌≡◌, refl, none, some, inr, List, [], ◌∷◌, ◌++◌, take, drop, arith}
use lab_cpp.Base.Int.{pos, ◌+ℤ◌, ◌-ℤ◌}
use lab_cpp.Base.Text.{codes, text_eq}
use lab_cpp.Base.Status.{ok, err, unknown_error}
use lab_cpp.PartialFile
use lab_cpp.PartialFile.{
  FileChunck, View, bytes, PartialFile, read_at, read, search_chuncks, read_chunck, holds, end_of,
}
use lab_cpp.PartialFile.Read.{AllLoaded, read_at-bytes}
use lab_cpp.Download.Fetch.{S3Path, DownloadResponse, query_aborted}
use lab_cpp.Download.Range.{calculate_length}
use lab_cpp.Parquet.{
  ColChunckFile, chunck_request, download_column_chunck, is_blank, find, footer_file,
}
use lab_cpp.Parquet.Chuncks.{chunck_request-length}
use lab_cpp.Parquet.Files.{EndsWith, Chunck, Has, download_column_chuncks, column_chunck_files}
use lab_cpp.Parquet.Footer.{footer-tail}

-- A file of ten bytes, of which two parts are loaded.
abbrev content : List ℕ
content = 0 ∷ 1 ∷ 2 ∷ 3 ∷ 4 ∷ 5 ∷ 6 ∷ 7 ∷ 8 ∷ 9 ∷ []

abbrev first_chunck : FileChunck
first_chunck = record { start_position = pos 1; buffer = 1 ∷ 2 ∷ 3 ∷ [] }

abbrev second_chunck : FileChunck
second_chunck = record { start_position = pos 5; buffer = 5 ∷ 6 ∷ 7 ∷ 8 ∷ [] }

abbrev file : PartialFile
file = PartialFile.construct (first_chunck ∷ second_chunck ∷ []) (pos 10)

loaded : AllLoaded content (first_chunck ∷ second_chunck ∷ [])
loaded = (
  record { from = 1; start = refl; part = refl },
  (record { from = 5; start = refl; part = refl }, tt),
)

abbrev view : View
view = record { parent = second_chunck.buffer; offset = pos 1; size = pos 2 }

read_at-bytes_example : bytes view ≡ take 2 (drop 6 content)
unfolding PartialFile.construct read_at search_chuncks read_chunck holds ◌+ℤ◌ ◌-ℤ◌
read_at-bytes_example = read_at-bytes content file 6 2 view loaded refl

abbrev path : S3Path
path = record { bucket = codes "b"; key = codes "k" }

abbrev chunck : Chunck
chunck = record {
  meta = record { file_offset = pos 4; total_compressed_size = pos 2 };
  path = path;
  ids = record { row_group = pos 3; column = pos 1 };
}

abbrev other : Chunck
other = record {
  meta = record { file_offset = pos 6; total_compressed_size = pos 2 };
  path = path;
  ids = record { row_group = pos 4; column = pos 1 };
}

abbrev response : DownloadResponse
response = record {
  request = record { range_start = some (pos 4); range_end = pos 6; path = path };
  raw_data = 4 ∷ 5 ∷ 6 ∷ [];
  file_size = pos 10;
}

column_chunck_files_example :
    (files : List ColChunckFile) × EndsWith
      (download_column_chuncks (chunck ∷ other ∷ []) [])
      ((err unknown_error query_aborted ∷ []) ++ ok response ∷ [])
      files
    × Has
        (record {
          row_group = pos 3;
          column = pos 1;
          file =
              PartialFile.construct
                (record { start_position = pos 4; buffer = 4 ∷ 5 ∷ 6 ∷ [] } ∷ [])
                (pos 10);
        })
        files
unfolding find chunck_request is_blank text_eq ◌+ℤ◌
column_chunck_files_example =
    column_chunck_files chunck [] (other ∷ []) response (err unknown_error query_aborted ∷ []) []
      refl refl refl (refl, (inr (pos 4, refl), tt))

chunck_request-length_example :
    calculate_length
      (download_column_chunck chunck.meta path chunck.ids []).0.range_start
      (download_column_chunck chunck.meta path chunck.ids []).0.range_end
    ≡ chunck.meta.total_compressed_size +ℤ pos 1
chunck_request-length_example = chunck_request-length chunck.meta path chunck.ids []

abbrev footer : DownloadResponse
footer = record {
  request = record { range_start = none; range_end = pos 4; path = path };
  raw_data = 6 ∷ 7 ∷ 8 ∷ 9 ∷ [];
  file_size = pos 10;
}

footer-tail_example :
    (v : View) × ((read_at (footer_file footer) (pos 8) (pos 2)).result ≡ ok v)
    × (bytes v ≡ 8 ∷ 9 ∷ [])
footer-tail_example =
    footer-tail content 4 2 footer (omega arith) (omega arith) (omega arith) refl refl refl
