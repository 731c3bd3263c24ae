-- ===== src/Download/Answer.antt =====
-- What a download of code/aws/downloader.cc returns, and what it records.
use lab_cpp.Base.{ℕ, ◌+◌, ◌≡◌, refl, ap, ◌∙◌, [], ◌∷◌, length, length-append, arith}
use lab_cpp.Base.Int.{ℤ, eq_of_parts}
use lab_cpp.Base.Status.{success, failure, Result, ok, err, Outcome, returns, throws}
use lab_cpp.Base.Text.{codes}
use lab_cpp.Toolbox.{get_duration_ms}
use lab_cpp.Metrics.{Impl, new_download, new_event}
use lab_cpp.Download.Range.{parse_range, calculate_length}
use lab_cpp.Download.Fetch.{
  DownloadRequest, DownloadResponse, ObjectRangeResult, GetObjectResult, GetObjectOutcome, error,
  result, Services, Clock, check_body, read_outcome, request_of, get_object_range, respond_with,
  download,
}

-- What a successful fetch says of the response of S3.
abbrev pub Filled : ℤ → GetObjectOutcome → ObjectRangeResult → Type 0
Filled nbytes o got =
    (object : GetObjectResult) × (o ≡ result object)
    × (got.raw_data ≡ object.body)
    × (object.gcount ≡ nbytes)
    × (parse_range object.content_range ≡ returns (ok got.file_size))

check_body-ok :
    (nbytes : ℤ) (object : GetObjectResult) (parsed : Outcome (Result ℤ)) (got : ObjectRangeResult)
    → check_body nbytes object parsed ≡ returns (ok got)
    → (got.raw_data ≡ object.body)
      × (object.gcount ≡ nbytes)
      × (parsed ≡ returns (ok got.file_size))
unfolding check_body
check_body-ok nbytes object (throws e) got h = cc
check_body-ok nbytes object (returns (err c m)) got h = cc
check_body-ok nbytes object (returns (ok size)) got h =
    ground (arith, eq_of_parts object.gcount nbytes)

read_outcome-Filled :
    (nbytes : ℤ) (o : GetObjectOutcome) (got : ObjectRangeResult)
    → read_outcome nbytes o ≡ returns (ok got)
    → Filled nbytes o got
unfolding read_outcome
read_outcome-Filled nbytes (error e) got h = cc
read_outcome-Filled nbytes (result object) got h =
    let (b, g, p) = check_body-ok nbytes object (parse_range object.content_range) got h in
    (object, refl, b, g, p)

new_download-length :
    (now thread : ℕ) (duration_ms size : ℤ) (m : Impl)
    → length (new_download now thread duration_ms size m).downloads ≡ length m.downloads + 1
unfolding new_download
new_download-length now thread duration_ms size m = length-append m.downloads (_ ∷ [])

module _ (services : Services) (clock : Clock) (thread : ℕ) where
  get_object_range-ok :
      (r : DownloadRequest) (m : Impl) (got : ObjectRangeResult)
      → (get_object_range services clock thread r m).0 ≡ returns (ok got)
      → read_outcome
          (calculate_length r.range_start r.range_end)
          (services.get_object (request_of r))
        ≡ returns (ok got)
  unfolding get_object_range
  get_object_range-ok r m got h = ground arith

  respond_with-ok :
      (r : DownloadRequest) (got : Outcome (Result ObjectRangeResult)) (m : Impl)
      (response : DownloadResponse)
      → (respond_with services clock thread r got m).0 ≡ returns (ok response)
      → got ≡ returns (ok (record { raw_data = response.raw_data; file_size = response.file_size }))
        × (response.request ≡ r)
  unfolding respond_with
  respond_with-ok r (throws e) m response h = cc
  respond_with-ok r (returns (err c message)) m response h = cc
  respond_with-ok r (returns (ok got)) m response h = ground arith

  -- A download that succeeds answers its own request, with the contents of the buffer of a response
  -- that S3 gave to the request for this range; that response filled the whole range, and its
  -- Content-Range header gave the size.
  pub download-Filled :
      (r : DownloadRequest) (m : Impl) (response : DownloadResponse)
      → (download services clock thread r m).0 ≡ returns (ok response)
      → (response.request ≡ r)
        × Filled
            (calculate_length r.range_start r.range_end)
            (services.get_object (request_of r))
            (record { raw_data = response.raw_data; file_size = response.file_size })
  unfolding download
  download-Filled r m response h =
      let started = new_event clock.event_start thread (codes "get_obj_start") m in
      let (g, e) =
        respond_with-ok r (get_object_range services clock thread r started).0
          (get_object_range services clock thread r started).1 response h in
      (e, read_outcome-Filled _ _ _ (get_object_range-ok r started _ g))

  -- 1 where the buffer of a download can be allocated.
  abbrev pub transfers : DownloadRequest → ℕ
  transfers r =
      elim (services.allocate_resizable_buffer (calculate_length r.range_start r.range_end)) [
        | success ↦ 1
        | failure c message ↦ 0
      ]

  respond_with-downloads :
      (r : DownloadRequest) (got : Outcome (Result ObjectRangeResult)) (m : Impl)
      → (respond_with services clock thread r got m).1.downloads ≡ m.downloads
  unfolding respond_with
  respond_with-downloads r (throws e) m = refl
  respond_with-downloads r (returns (err c message)) m = refl
  respond_with-downloads r (returns (ok got)) m = refl

  get_object_range-downloads :
      (r : DownloadRequest) (m : Impl)
      → length (get_object_range services clock thread r m).1.downloads
        ≡ length m.downloads + transfers r
  unfolding get_object_range
  get_object_range-downloads r m = ground (
    arith,
    new_download-length clock.recorded thread (get_duration_ms clock.start_time clock.end_time)
        (calculate_length r.range_start r.range_end) m,
  )

  -- A download records one more transfer if its buffer could be allocated, and none otherwise,
  -- whatever S3 answers.
  pub download-recorded :
      (r : DownloadRequest) (m : Impl)
      → length (download services clock thread r m).1.downloads ≡ length m.downloads + transfers r
  unfolding download
  download-recorded r m =
      let started = new_event clock.event_start thread (codes "get_obj_start") m in
      ap length (
        respond_with-downloads r (get_object_range services clock thread r started).0
          (get_object_range services clock thread r started).1)
      ∙ get_object_range-downloads r started
