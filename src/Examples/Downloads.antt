-- ===== src/Examples/Downloads.antt =====
-- Downloads of code/aws/downloader.cc from a client that answers one request, and the metrics.
use lab_cpp.Base.{◌≡◌, refl, none, some, List, [], ◌∷◌, ◌++◌, arith}
use lab_cpp.Base.Int.{pos, ◌+ℤ◌, ◌-ℤ◌}
use lab_cpp.Base.Text.{codes}
use lab_cpp.Base.Decimal.{print_ℕ, stoll, signed, unsigned, in_range, scan, skip_space}
use lab_cpp.Base.Status.{success, io_error, ok, err, returns, throws, invalid_argument}
use lab_cpp.Metrics
use lab_cpp.Metrics.{Impl, MetricEvent, new_event}
use lab_cpp.Metrics.Phases.{
  PhaseCall, enters, exits, run, phase, durations_of, measured, phases_measured,
}
use lab_cpp.Download.Range.{parse_range, calculate_length, after_slash, sized}
use lab_cpp.Download.Ranges.{parse_range-size, parse_range_errors}
use lab_cpp.Download.Fetch.{
  DownloadRequest, DownloadResponse, result, Services, Clock, request_of, download,
  get_object_range, respond_with, read_outcome, check_body,
}
use lab_cpp.Download.Answer.{Filled, download-Filled}

parse_range-size_example :
    parse_range (codes "bytes 4-7" ++ (b'/' ∷ (print_ℕ 20 ++ []))) ≡ returns (ok (pos 20))
parse_range-size_example =
    parse_range-size (codes "bytes 4-7") 20 []
      (refl, (refl, (refl, (refl, (refl, (refl, (refl, (refl, (refl, tt))))))))) (omega arith) tt

parse_range_errors_example :
    (parse_range (codes "bytes")
      ≡ returns (err io_error (codes "Unexpected content range: " ++ codes "bytes")))
    × (parse_range (codes "bytes" ++ codes "/*") ≡ throws invalid_argument)
parse_range_errors_example =
    parse_range_errors (codes "bytes") (refl, (refl, (refl, (refl, (refl, tt)))))

-- A client that answers with four bytes of a file of 20.
abbrev services : Services
services = record {
  get_object = λ request. result (record {
    content_range = codes "bytes 4-7/20";
    gcount = pos 4;
    body = 65 ∷ 66 ∷ 67 ∷ 68 ∷ [];
  });
  allocate_resizable_buffer = λ size. success;
}

abbrev clock : Clock
clock = record { event_start = 0; start_time = 1; end_time = 2; recorded = 3; event_end = 4 }

abbrev request : DownloadRequest
request = record {
  range_start = some (pos 4);
  range_end = pos 7;
  path = record { bucket = codes "b"; key = codes "k" };
}

abbrev metrics : Impl
metrics = Metrics.construct 0

abbrev response : DownloadResponse
response = record { request = request; raw_data = 65 ∷ 66 ∷ 67 ∷ 68 ∷ []; file_size = pos 20 }

download-Filled_example :
    (response.request ≡ request)
    × Filled
        (calculate_length request.range_start request.range_end)
        (services.get_object (request_of request))
        (record { raw_data = response.raw_data; file_size = response.file_size })
unfolding download get_object_range respond_with read_outcome check_body parse_range
    calculate_length ◌+ℤ◌ ◌-ℤ◌ stoll signed unsigned in_range scan skip_space after_slash sized
download-Filled_example = download-Filled services clock 1 request metrics response refl

abbrev calls : List PhaseCall
calls =
    enters (codes "wait") 1000000
    ∷ enters (codes "work") 2000000
    ∷ exits (codes "wait") 5000000
    ∷ []

phases_measured_example :
    durations_of (phase (codes "wait") (run calls (Metrics.construct 0)))
    ≡ measured (codes "wait") none calls
phases_measured_example = phases_measured (codes "wait") 0 calls
