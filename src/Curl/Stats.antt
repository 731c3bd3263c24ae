-- ===== src/Curl/Stats.antt =====
-- What MakeRequest of code/aws/curl/HttpClient.cpp logs and records of a transfer, and the names of the
-- kinds of information that curl's debug callback gets.
use lab_cpp.Base.{ℕ, Option, none, some, List, [], ◌∷◌, ◌++◌}
use lab_cpp.Base.Int.{ℤ, pos}
use lab_cpp.Base.Text.{Text, codes}
use lab_cpp.Base.Decimal.{print_ℕ}
use lab_cpp.Logger.{LogEntry, new_entry, int_field}

pub data InfoType : Type 0 where
  text header_in header_out data_in data_out ssl_data_in ssl_data_out other_info : InfoType

unfoldable pub curl_info_type_to_string : InfoType → Text
curl_info_type_to_string text = codes "Text"
curl_info_type_to_string header_in = codes "HeaderIn"
curl_info_type_to_string header_out = codes "HeaderOut"
curl_info_type_to_string data_in = codes "DataIn"
curl_info_type_to_string data_out = codes "DataOut"
curl_info_type_to_string ssl_data_in = codes "SSLDataIn"
curl_info_type_to_string ssl_data_out = codes "SSLDataOut"
curl_info_type_to_string other_info = codes "Unknown"

abbrev pub logged_as : InfoType → Text → Text
logged_as type rest = codes "(" ++ (curl_info_type_to_string type ++ (codes ") " ++ rest))

-- CurlDebugCallback: the line that it logs; of encrypted data only the size.
unfoldable pub curl_debug_callback : InfoType → List ℕ → (size : ℕ) → Text
unfolding curl_info_type_to_string
curl_debug_callback ssl_data_in bytes size = logged_as ssl_data_in (print_ℕ size ++ codes "bytes")
curl_debug_callback ssl_data_out bytes size = logged_as ssl_data_out (print_ℕ size ++ codes "bytes")
curl_debug_callback type bytes size = logged_as type bytes

-- The times that curl gives after a transfer, in milliseconds and rounded as the casts to an integer
-- do, where it has them.
pub record Times : Type 0 where
  pub dns : Option ℤ
  pub starttransfer : Option ℤ
  pub appconnect : Option ℤ

-- The metrics of HttpClientMetricsType that a request gets.
pub data RequestMetric : Type 0 where
  dns_latency connect_latency ssl_latency request_latency : ℤ → RequestMetric

abbrev pub measured_field : Text → Option ℤ → LogEntry → LogEntry
measured_field key none entry = entry
measured_field key (some ms) entry = int_field key ms entry

abbrev pub metric : (ℤ → RequestMetric) → Option ℤ → List RequestMetric
metric kind none = []
metric kind (some ms) = kind ms ∷ []

-- The entry `client_stats`.
unfoldable pub client_stats :
    (container_runs now : ℕ) → (curl_code : ℕ) → Times → (total_ms : ℤ) → LogEntry
unfolding new_entry int_field
client_stats container_runs now curl_code times total_ms =
    let entry =
      int_field (codes "curl_code") (pos curl_code)
        (new_entry container_runs (codes "client_stats") now) in
    let with_dns = measured_field (codes "dns_ms") times.dns entry in
    let with_transfer = measured_field (codes "starttransfer_ms") times.starttransfer with_dns in
    let with_connect = measured_field (codes "appconnect_ms") times.appconnect with_transfer in
    int_field (codes "total_ms") total_ms with_connect

-- The calls of AddRequestMetric; `latency` is the time since the start of the transmission.
unfoldable pub request_metrics : Times → (latency : ℤ) → List RequestMetric
request_metrics times latency =
    metric dns_latency times.dns
    ++ metric connect_latency times.starttransfer
    ++ metric ssl_latency times.appconnect
    ++ request_latency latency ∷ []
