-- ===== src/Curl/Options.antt =====
-- The options that MakeRequest of code/aws/curl/HttpClient.cpp sets on a handle, and the constructor of
-- the client, from whose configuration they come.
use lab_cpp.Base.{ℕ, Bool, true, false, ◌&&◌, not, List, [], ◌∷◌, ◌++◌, map, if◌then◌else◌}
use lab_cpp.Base.Int.{ℤ}
use lab_cpp.Base.Text.{Text, codes, text_eq}
use lab_cpp.Curl.Handles.{CurlHandleContainer, Options}
use lab_cpp.Curl.Request.{MethodOption}

pub data FollowRedirects : Type 0 where
  by_default always never : FollowRedirects

-- What the client reads of Aws::Client::ClientConfiguration; the scheme of the proxy is the text that
-- the SDK's SchemeMapper gives.
pub record ClientConfiguration : Type 0 where
  pub http_request_timeout_ms : ℤ
  pub connect_timeout_ms : ℤ
  pub enable_tcp_keep_alive : Bool
  pub tcp_keep_alive_interval_ms : ℕ
  pub request_timeout_ms : ℤ
  pub low_speed_limit : ℕ
  pub proxy_user_name : Text
  pub proxy_password : Text
  pub proxy_scheme : Text
  pub proxy_host : Text
  pub proxy_ssl_cert_path : Text
  pub proxy_ssl_cert_type : Text
  pub proxy_ssl_key_path : Text
  pub proxy_ssl_key_type : Text
  pub proxy_ssl_key_password : Text
  pub proxy_port : ℕ
  pub verify_ssl : Bool
  pub ca_path : Text
  pub ca_file : Text
  pub disable_expect_header : Bool
  pub follow_redirects : FollowRedirects
  pub region : Text

-- The client: its handle container, the configuration that its members copy, and what the constructor
-- computes of it.
pub record CurlHttpClient : Type 0 where
  pub curl_handle_container : CurlHandleContainer
  pub is_using_proxy : Bool
  pub allow_redirects : Bool
  pub config : ClientConfiguration

abbrev pub is_empty : Text → Bool
is_empty [] = true
is_empty (c ∷ cs) = false

-- `aws_global` is Aws::Region::AWS_GLOBAL.
unfoldable pub redirects_allowed : Text → FollowRedirects → Text → Bool
redirects_allowed aws_global never region = false
redirects_allowed aws_global always region = true
redirects_allowed aws_global by_default region = not (text_eq region aws_global)

unfoldable pub construct : Text → ClientConfiguration → CurlHttpClient
unfolding redirects_allowed
construct aws_global config = record {
  curl_handle_container = record {
    http_request_timeout = config.http_request_timeout_ms;
    connect_timeout = config.connect_timeout_ms;
    enable_tcp_keep_alive = config.enable_tcp_keep_alive;
    tcp_keep_alive_interval_ms = config.tcp_keep_alive_interval_ms;
    low_speed_time = config.request_timeout_ms;
    low_speed_limit = config.low_speed_limit;
  };
  is_using_proxy = not (is_empty config.proxy_host);
  allow_redirects = redirects_allowed aws_global config.follow_redirects config.region;
  config = config;
}

-- An option of a handle, named after curl's; the callbacks are named by what they are set to.
pub data CurlOption : Type 0 where
  defaults : Options → CurlOption
  http_header : List Text → CurlOption
  method_option : MethodOption → CurlOption
  url : Text → CurlOption
  write_callbacks read_callbacks : CurlOption
  capath cainfo : Text → CurlOption
  ssl_verify_peer ssl_verify_host ssl_version_tls1 : ℕ → CurlOption
  follow_location : ℕ → CurlOption
  verbose : CurlOption
  proxy : Text → CurlOption
  proxy_port : ℕ → CurlOption
  proxy_username proxy_password : Text → CurlOption
  proxy_sslcert proxy_sslcert_type proxy_sslkey proxy_sslkey_type proxy_key_passwd :
      Text → CurlOption

-- The macros that the file tests: ENABLE_CURL_LOGGING, CURL_HAS_TLS_PROXY, and a libcurl of at least
-- version 7.34.
pub record Build : Type 0 where
  pub enable_curl_logging : Bool
  pub curl_has_tls_proxy : Bool
  pub has_ssl_version : Bool

-- An option that is set only if its text is not empty.
abbrev pub unless_empty : Text → CurlOption → List CurlOption
unless_empty text option = if is_empty text then [] else option ∷ []

unfoldable pub ssl_options : Build → Bool → List CurlOption
ssl_options build true =
    ssl_verify_peer 1
    ∷ ssl_verify_host 2
    ∷ (if build.has_ssl_version then ssl_version_tls1 1 ∷ [] else [])
ssl_options build false = ssl_verify_peer 0 ∷ ssl_verify_host 0 ∷ []

unfoldable pub tls_proxy_options : ClientConfiguration → List CurlOption
tls_proxy_options c =
    (if is_empty c.proxy_ssl_cert_path
      then []
      else proxy_sslcert c.proxy_ssl_cert_path
        ∷ unless_empty c.proxy_ssl_cert_type (proxy_sslcert_type c.proxy_ssl_cert_type))
    ++ (if is_empty c.proxy_ssl_key_path
        then []
        else proxy_sslkey c.proxy_ssl_key_path
          ∷ (unless_empty c.proxy_ssl_key_type (proxy_sslkey_type c.proxy_ssl_key_type)
              ++ unless_empty c.proxy_ssl_key_password (proxy_key_passwd c.proxy_ssl_key_password)))

unfoldable pub proxy_options : Build → CurlHttpClient → List CurlOption
unfolding tls_proxy_options
proxy_options build client =
    let c = client.config in
    if client.is_using_proxy
    then proxy (c.proxy_scheme ++ (codes "://" ++ c.proxy_host))
      ∷ proxy_port c.proxy_port
      ∷ ((if is_empty c.proxy_user_name && is_empty c.proxy_password
            then []
            else proxy_username c.proxy_user_name ∷ proxy_password c.proxy_password ∷ [])
          ++ (if build.curl_has_tls_proxy then tls_proxy_options c else []))
    else proxy [] ∷ []

-- `if (headers)`
abbrev pub header_option : List Text → List CurlOption
header_option [] = []
header_option (line ∷ lines) = http_header (line ∷ lines) ∷ []

-- All that MakeRequest sets before `curl_easy_perform`, in its order.
unfoldable pub request_options :
    Build
    → CurlHttpClient
    → List Text
    → List MethodOption
    → Text
    → (has_body : Bool) → List CurlOption
unfolding ssl_options proxy_options
request_options build client headers method address has_body =
    header_option headers
    ++ map method_option method
    ++ url address
      ∷ write_callbacks
      ∷ (unless_empty client.config.ca_path (capath client.config.ca_path)
          ++ unless_empty client.config.ca_file (cainfo client.config.ca_file)
          ++ ssl_options build client.config.verify_ssl
          ++ follow_location (if client.allow_redirects then 1 else 0)
            ∷ ((if build.enable_curl_logging then verbose ∷ [] else [])
                ++ proxy_options build client
                ++ (if has_body then read_callbacks ∷ [] else [])))
