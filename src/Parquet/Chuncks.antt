-- ===== src/Parquet/Chuncks.antt =====
-- Which column chuncks the files of code/aws/parquet-helpers.h hold.
use lab_cpp.Base.{◌≡◌, refl, true, Option, none, some, [], ◌∷◌, ◌++◌, if◌then◌else◌, arith, ap}
use lab_cpp.Base.Int.{ℤ, pos, ◌+ℤ◌, ◌-ℤ◌, eq_of_parts, int_laws}
use lab_cpp.Base.Text.{text_eq_of, text_eq_refl}
use lab_cpp.Download.Fetch.{S3Path, DownloadRequest}
use lab_cpp.Download.Range.{calculate_length}
use lab_cpp.Parquet.{
  start_equal, request_equal, ParquetColumnChunckIds, RgStartMap, find, emplace, ColumnChunckMeta,
  chunck_request, download_column_chunck,
}

-- A request for a column chunck asks for one byte more than the chunck has: its end is the first
-- byte behind the chunck, and a Range header names the last byte that it wants.
pub chunck_request-length :
    (meta : ColumnChunckMeta) (path : S3Path) (ids : ParquetColumnChunckIds) (m : RgStartMap)
    → calculate_length
        (download_column_chunck meta path ids m).0.range_start
        (download_column_chunck meta path ids m).0.range_end
      ≡ meta.total_compressed_size +ℤ pos 1
unfolding download_column_chunck chunck_request calculate_length
chunck_request-length meta path ids m =
    let s = meta.file_offset in
    let l = meta.total_compressed_size in
    ap (λ x. x +ℤ pos 1) (eq_of_parts (s +ℤ l -ℤ s) l (omega int_laws))

start_equal_of : (a b : Option ℤ) → start_equal a b ≡ true → a ≡ b
unfolding start_equal
start_equal_of none none h = refl
start_equal_of none (some b) h = cc
start_equal_of (some a) none h = cc
start_equal_of (some a) (some b) h = ap some (eq_of_parts a b (ground arith))

start_equal_refl : (a : Option ℤ) → start_equal a a ≡ true
unfolding start_equal
start_equal_refl none = refl
start_equal_refl (some a) = ground arith

request_equal_of : (a b : DownloadRequest) → request_equal a b ≡ true → a ≡ b
unfolding request_equal
request_equal_of a b h = ground (
  arith,
  text_eq_of a.path.bucket b.path.bucket,
  text_eq_of a.path.key b.path.key,
  start_equal_of a.range_start b.range_start,
  eq_of_parts a.range_end b.range_end,
)

request_equal_refl : (a : DownloadRequest) → request_equal a a ≡ true
unfolding request_equal
request_equal_refl a =
    ground
      (arith, text_eq_refl a.path.bucket, text_eq_refl a.path.key, start_equal_refl a.range_start)

find-append :
    (r q : DownloadRequest) (ids : ParquetColumnChunckIds) (m : RgStartMap)
    → find r m ≡ none
    → find r (m ++ (q, ids) ∷ []) ≡ (if request_equal q r then some ids else none)
unfolding find
find-append r q ids [] h = refl
find-append r q ids ((p, i) ∷ m) h = ground (arith, find-append r q ids m)

find-append_old :
    (r q : DownloadRequest) (ids old : ParquetColumnChunckIds) (m : RgStartMap)
    → find r m ≡ some old
    → find r (m ++ (q, ids) ∷ []) ≡ some old
unfolding find
find-append_old r q ids old [] h = cc
find-append_old r q ids old ((p, i) ∷ m) h = ground (arith, find-append_old r q ids old m)

pub find-emplace_old :
    (r q : DownloadRequest) (ids old : ParquetColumnChunckIds) (m : RgStartMap)
    → find r m ≡ some old
    → find r (emplace q ids m) ≡ some old
unfolding emplace
find-emplace_old r q ids old m h = ground (arith, find-append_old r q ids old m)

pub find-emplace_new :
    (r : DownloadRequest) (ids : ParquetColumnChunckIds) (m : RgStartMap)
    → find r m ≡ none
    → find r (emplace r ids m) ≡ some ids
unfolding emplace
find-emplace_new r ids m h = ground (arith, find-append r r ids m h, request_equal_refl r)
