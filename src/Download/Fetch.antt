-- ===== src/Download/Fetch.antt =====
-- GetObjectRange of code/aws/downloader.cc, and the task that ScheduleDownload queues for it. The S3
-- client and arrow's allocation are parameters, and the clock is an argument.
use lab_cpp.Base.{ℕ, Option, List, ◌++◌, if◌then◌else◌}
use lab_cpp.Base.Int.{ℤ, eqb_ℤ}
use lab_cpp.Base.Text.{Text, codes}
use lab_cpp.Base.Decimal.{print_ℕ, print_ℤ}
use lab_cpp.Base.Status.{
  Status, success, failure, io_error, Result, ok, err, Outcome, returns, throws,
}
use lab_cpp.Toolbox.{get_duration_ms}
use lab_cpp.Metrics.{Impl, new_download, new_event}
use lab_cpp.Download.Range.{format_range, parse_range, calculate_length}

pub record S3Path : Type 0 where
  pub bucket : Text
  pub key : Text

unfoldable pub to_string : S3Path → Text
to_string path = path.bucket ++ (codes "/" ++ path.key)

pub record DownloadRequest : Type 0 where
  pub range_start : Option ℤ
  pub range_end : ℤ
  pub path : S3Path

pub record DownloadResponse : Type 0 where
  pub request : DownloadRequest
  pub raw_data : List ℕ
  pub file_size : ℤ

pub record ObjectRangeResult : Type 0 where
  pub raw_data : List ℕ
  pub file_size : ℤ

pub record S3Error : Type 0 where
  pub code : ℕ
  pub message : Text

-- What a successful GetObject leaves: its Content-Range header, the number of bytes that
-- `stream.ignore(nbytes)` skips, and the contents of the buffer that it wrote to.
pub record GetObjectResult : Type 0 where
  pub content_range : Text
  pub gcount : ℤ
  pub body : List ℕ

pub data GetObjectOutcome : Type 0 where
  error : S3Error → GetObjectOutcome
  result : GetObjectResult → GetObjectOutcome

-- A GetObject request: the path, the Range header and the size of the buffer for the body.
pub record GetObjectRequest : Type 0 where
  pub path : S3Path
  pub range : Text
  pub nbytes : ℤ

pub record Services : Type 0 where
  pub get_object : GetObjectRequest → GetObjectOutcome
  pub allocate_resizable_buffer : ℤ → Status

-- What the calls of `time::now()` in one download give, in their order.
pub record Clock : Type 0 where
  pub event_start : ℕ
  pub start_time : ℕ
  pub end_time : ℕ
  pub recorded : ℕ
  pub event_end : ℕ

unfoldable pub s3_error_to_status : S3Error → Text
s3_error_to_status e = codes "AWS Error [code " ++ (print_ℕ e.code ++ (codes "]: " ++ e.message))

-- STATUS_ABORTED
abbrev pub query_aborted : Text
query_aborted = codes "query_aborted"

-- The check of the body, once the headers have been read.
unfoldable pub check_body :
    ℤ → GetObjectResult → Outcome (Result ℤ) → Outcome (Result ObjectRangeResult)
check_body nbytes object (throws e) = throws e
check_body nbytes object (returns (err c m)) = returns (err c m)
check_body nbytes object (returns (ok file_size)) =
    if eqb_ℤ object.gcount nbytes
    then returns (ok (record { raw_data = object.body; file_size = file_size }))
    else returns (
        err io_error (
          codes "Read "
          ++ (print_ℤ object.gcount ++ (codes " bytes instead of " ++ print_ℤ nbytes))))

unfoldable pub read_outcome : ℤ → GetObjectOutcome → Outcome (Result ObjectRangeResult)
unfolding check_body s3_error_to_status parse_range
read_outcome nbytes (error e) = returns (err io_error (s3_error_to_status e))
read_outcome nbytes (result object) = check_body nbytes object (parse_range object.content_range)

unfoldable pub request_of : DownloadRequest → GetObjectRequest
request_of r = record {
  path = r.path;
  range = format_range r.range_start r.range_end;
  nbytes = calculate_length r.range_start r.range_end;
}

module _ (services : Services) where
  -- GetObjectRange, with the metrics of the download, which it records for failures too.
  unfoldable pub get_object_range :
      Clock → ℕ → DownloadRequest → Impl → Outcome (Result ObjectRangeResult) × Impl
  unfolding request_of read_outcome new_download
  get_object_range clock thread r m =
      let nbytes = calculate_length r.range_start r.range_end in
      elim (services.allocate_resizable_buffer nbytes) [
        | failure c message ↦ (returns (err c message), m)
        | success ↦ (
          read_outcome nbytes (services.get_object (request_of r)),
          new_download clock.recorded thread (get_duration_ms clock.start_time clock.end_time)
              nbytes m,
        )
      ]

  -- The closure that ScheduleDownload queues.
  unfoldable pub respond_with :
      Clock
      → ℕ
      → DownloadRequest
      → Outcome (Result ObjectRangeResult)
      → Impl
      → Outcome (Result DownloadResponse) × Impl
  unfolding new_event
  respond_with clock thread r (throws e) m = (throws e, m)
  respond_with clock thread r (returns (err c message)) m = (returns (err c message), m)
  respond_with clock thread r (returns (ok got)) m = (
    returns (ok (record { request = r; raw_data = got.raw_data; file_size = got.file_size })),
    new_event clock.event_end thread (codes "get_obj_end") m,
  )

  unfoldable pub download :
      Clock → ℕ → DownloadRequest → Impl → Outcome (Result DownloadResponse) × Impl
  unfolding get_object_range respond_with new_event
  download clock thread r m =
      let (got, after) =
        get_object_range clock thread r
          (new_event clock.event_start thread (codes "get_obj_start") m) in
      respond_with clock thread r got after
