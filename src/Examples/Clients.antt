-- ===== src/Examples/Clients.antt =====
-- Calls of MakeRequest of code/aws/curl/HttpClient.cpp, and the life of curl in a program.
use lab_cpp.Base.{ℕ, zero, ◌+◌, ◌≤◌, ◌≡◌, refl, true, false, none, some, [], ◌∷◌}
use lab_cpp.Base.Int.{pos}
use lab_cpp.Base.Text.{codes, text_eq}
use lab_cpp.Base.StdMap.{find}
use lab_cpp.Curl.Handles
use lab_cpp.Curl.Request.{get}
use lab_cpp.Curl.Options.{Build, CurlHttpClient, ClientConfiguration, by_default, construct}
use lab_cpp.Curl.Client
use lab_cpp.Curl.Client.{HttpRequest, begins, ends, releases, initial, next, set_options}
use lab_cpp.Curl.Client.Exclusive.{in_cache, in_use, exclusive_handles}
use lab_cpp.Curl.Client.Exclusive
use lab_cpp.Curl.Client.Fresh.{AllOwn, reuse_invisible}
use lab_cpp.Curl.Global.{nothing_set_up, call_all, curl_not_revived}
use lab_cpp.Sdk.{info, initializes, finalizes, not_initialized}

abbrev build : Build
build = record { enable_curl_logging = false; curl_has_tls_proxy = true; has_ssl_version = true }

abbrev config : ClientConfiguration
config = record {
  http_request_timeout_ms = pos 500;
  connect_timeout_ms = pos 500;
  enable_tcp_keep_alive = true;
  tcp_keep_alive_interval_ms = 30000;
  request_timeout_ms = pos 3000;
  low_speed_limit = 1;
  proxy_user_name = [];
  proxy_password = [];
  proxy_scheme = codes "http";
  proxy_host = [];
  proxy_ssl_cert_path = [];
  proxy_ssl_cert_type = [];
  proxy_ssl_key_path = [];
  proxy_ssl_key_type = [];
  proxy_ssl_key_password = [];
  proxy_port = 80;
  verify_ssl = true;
  ca_path = [];
  ca_file = [];
  disable_expect_header = true;
  follow_redirects = by_default;
  region = codes "eu-west-1";
}

abbrev client : CurlHttpClient
client = construct (codes "aws-global") config

abbrev request : HttpRequest
request = record {
  authority = codes "s3";
  uri = codes "s3/key";
  method = get;
  headers = [];
  has_body = false;
}

-- Client 0 waits three times as long as the others.
abbrev clients : ℕ → CurlHttpClient
clients zero = construct (codes "aws-global") (record config { http_request_timeout_ms = pos 1500 })
clients _ = client

-- A call of one client has ended, and one of another client has taken its handle from the cache.
abbrev first_call : Client.Client
first_call = Client.begin_request build clients (some 11) (some 1) 0 request initial

abbrev reset : Client.Client
reset = elim (Client.end_request (codes "s3") 11 0 first_call) [ none ↦ initial | some c ↦ c ]

abbrev between : Client.Client
between = elim (Client.release_request (codes "s3") 11 reset) [ none ↦ initial | some c ↦ c ]

abbrev second_call : Client.Client
second_call = Client.begin_request build clients none none 1 request between

reached : Exclusive.Reach build clients second_call
unfolding next Client.begin_request Client.end_request Client.give_back Client.perform
    Client.release_request Client.reset_handle Client.initial Handles.initial Handles.next
    Handles.acquire Handles.lend Handles.release_curl_handle Handles.release Handles.end_loan
    Handles.take_handle find text_eq
reached =
    Exclusive.later
      (Exclusive.later
        (Exclusive.later
          (Exclusive.later Exclusive.begin (begins (some 11) (some 1) 0 request) refl refl)
          (ends (codes "s3") 11 0) tt refl)
        (releases (codes "s3") 11) tt refl)
      (begins none none 1 request) tt refl

exclusive_handles_example : in_cache 11 second_call.pool.cache + in_use 11 second_call.pool ≤ 1
exclusive_handles_example = exclusive_handles build clients reached 11

reuse_invisible_example : AllOwn build clients second_call.performed
reuse_invisible_example = reuse_invisible build clients reached

curl_not_revived_example :
    (call_all
      (initializes info ∷ finalizes ∷ initializes info ∷ [])
      (not_initialized, nothing_set_up)).1.curl_ready
    ≡ false
unfolding not_initialized
curl_not_revived_example =
    curl_not_revived info (initializes info ∷ []) not_initialized nothing_set_up refl
