-- ===== src/Parquet.antt =====
-- code/aws/parquet-helpers.h: the downloads of a Parquet file's footer and column chuncks. What the
-- parquet library reads from the footer is an argument.
pub mod Chuncks
pub mod Files
pub mod Footer
pub mod Metadata
pub mod Hash
use lab_cpp.Base.{
  ℕ, ◌+◌, ◌≡◌, Bool, true, false, ◌&&◌, Option, none, some, List, [], ◌∷◌, ◌++◌, if◌then◌else◌,
}
use lab_cpp.Base.Int.{ℤ, pos, eqb_ℤ, ◌+ℤ◌, ◌-ℤ◌}
use lab_cpp.Base.Text.{Text, codes, text_eq}
use lab_cpp.Base.Status.{Result, ok, err}
use lab_cpp.PartialFile
use lab_cpp.PartialFile.{PartialFile}
use lab_cpp.Download.Fetch.{S3Path, DownloadRequest, DownloadResponse, query_aborted}

-- The test of two optional starts.
unfoldable pub start_equal : Option ℤ → Option ℤ → Bool
start_equal none none = true
start_equal (some a) (some b) = eqb_ℤ a b
start_equal _ _ = false

-- struct RequestEqual
unfoldable pub request_equal : DownloadRequest → DownloadRequest → Bool
unfolding start_equal
request_equal a b =
    text_eq a.path.bucket b.path.bucket
    && text_eq a.path.key b.path.key
    && start_equal a.range_start b.range_start
    && eqb_ℤ a.range_end b.range_end

pub record ParquetColumnChunckIds : Type 0 where
  pub row_group : ℤ
  pub column : ℤ

-- `rg_start_map`, as the list of its entries: an unordered map has no order that counts.
abbrev pub RgStartMap : Type 0
RgStartMap = List (DownloadRequest × ParquetColumnChunckIds)

unfoldable pub find : DownloadRequest → RgStartMap → Option ParquetColumnChunckIds
unfolding request_equal
find r [] = none
find r ((q, ids) ∷ m) = if request_equal q r then some ids else find r m

-- `emplace` leaves an entry that is there.
unfoldable pub emplace : DownloadRequest → ParquetColumnChunckIds → RgStartMap → RgStartMap
unfolding find
emplace r ids m = elim (find r m) [ none ↦ m ++ (r, ids) ∷ [] | some _ ↦ m ]

-- The value of `rg_start_map[request]`: zeros for a request that is not there.
abbrev pub zero_ids : ParquetColumnChunckIds
zero_ids = record { row_group = pos 0; column = pos 0 }

unfoldable pub ids_of : DownloadRequest → RgStartMap → ParquetColumnChunckIds
unfolding find
ids_of r m = elim (find r m) [ none ↦ zero_ids | some ids ↦ ids ]

-- What the footer says of a column chunck.
pub record ColumnChunckMeta : Type 0 where
  pub file_offset : ℤ
  pub total_compressed_size : ℤ

-- DownloadColumnChunck: the request that it schedules, and the entry that it makes.
unfoldable pub chunck_request : ColumnChunckMeta → S3Path → DownloadRequest
chunck_request meta path = record {
  range_start = some meta.file_offset;
  range_end = meta.file_offset +ℤ meta.total_compressed_size;
  path = path;
}

unfoldable pub download_column_chunck :
    ColumnChunckMeta → S3Path → ParquetColumnChunckIds → RgStartMap → DownloadRequest × RgStartMap
unfolding chunck_request emplace
download_column_chunck meta path ids m =
    (chunck_request meta path, emplace (chunck_request meta path) ids m)

pub record ColChunckFile : Type 0 where
  pub row_group : ℤ
  pub column : ℤ
  pub file : PartialFile

-- A loop that goes on to its end, that ends the process in ValueOrDie, or that throws
-- std::bad_optional_access.
pub data Ending {ℓ} (A : Type ℓ) : Type ℓ where
  ends : A → Ending A
  dies : Text → Ending A
  bad_optional_access : Ending A

-- `range_start.value_or(0) == 0 && range_end == 0`: the response is not a download.
unfoldable pub is_blank : DownloadRequest → Bool
is_blank r = start_equal_zero r.range_start && eqb_ℤ r.range_end (pos 0)
  where
    start_equal_zero : Option ℤ → Bool
    start_equal_zero none = true
    start_equal_zero (some s) = eqb_ℤ s (pos 0)

unfoldable pub file_of : RgStartMap → ℤ → DownloadResponse → ColChunckFile
unfolding ids_of
file_of m start response = record {
  row_group = (ids_of response.request m).row_group;
  column = (ids_of response.request m).column;
  file =
      PartialFile.construct (record { start_position = start; buffer = response.raw_data } ∷ [])
        response.file_size;
}

unfoldable pub then_file :
    ColChunckFile
    → Ending (List ColChunckFile × RgStartMap)
    → Ending (List ColChunckFile × RgStartMap)
then_file file (ends (files, m)) = ends (file ∷ files, m)
then_file file (dies message) = dies message
then_file file bad_optional_access = bad_optional_access

-- What one turn of the loop makes of a response, before the rest of the turns.
unfoldable pub turn :
    RgStartMap
    → DownloadResponse
    → Ending (List ColChunckFile × RgStartMap)
    → Ending (List ColChunckFile × RgStartMap)
unfolding is_blank file_of then_file
turn m response rest =
    if is_blank response.request then rest else elim response.request.range_start [
      | none ↦ bad_optional_access
      | some start ↦ then_file (file_of m start response) rest
    ]

-- The map after a turn: `rg_start_map[request]` makes an entry that is not there.
unfoldable pub touched : RgStartMap → DownloadResponse → RgStartMap
unfolding is_blank emplace
touched m response = if is_blank response.request then m else elim response.request.range_start [
  | none ↦ m
  | some start ↦ emplace response.request zero_ids m
]

-- GetColumnChunckFiles, on what ProcessResponses has returned: the files, and the map afterwards.
unfoldable pub get_column_chunck_files :
    RgStartMap → List (Result DownloadResponse) → Ending (List ColChunckFile × RgStartMap)
unfolding turn touched
get_column_chunck_files m [] = ends ([], m)
get_column_chunck_files m (err c message ∷ results) =
    let rest = get_column_chunck_files m results in
    if text_eq message query_aborted then rest else dies message
get_column_chunck_files m (ok response ∷ results) =
    let rest = get_column_chunck_files (touched m response) results in turn m response rest

-- The loop of GetMetadata over what one call of ProcessResponses returns: the last response that is
-- a download is the footer.
unfoldable pub find_footer :
    List (Result DownloadResponse) → DownloadResponse → Ending DownloadResponse
unfolding is_blank
find_footer [] footer = ends footer
find_footer (err c message ∷ results) footer = dies message
find_footer (ok response ∷ results) footer =
    find_footer results (if is_blank response.request then footer else response)

unfoldable pub footer_request : S3Path → DownloadRequest
footer_request path = record { range_start = none; range_end = pos 65536; path = path }

-- The file that holds the footer alone.
unfoldable pub footer_file : DownloadResponse → PartialFile
footer_file response =
    PartialFile.construct
      (record {
        start_position = response.file_size -ℤ response.request.range_end;
        buffer = response.raw_data;
      }
        ∷ [])
      response.file_size
