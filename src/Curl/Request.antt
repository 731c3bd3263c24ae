-- ===== src/Curl/Request.antt =====
-- MakeRequest of code/aws/curl/HttpClient.cpp: the method's options, the headers that are sent, and
-- what becomes of the response and of the handle once curl_easy_perform has returned. Settings of
-- TLS and proxies, and the metrics, are left out.
pub mod Body
use lab_cpp.Base.{
  ℕ, ◌+◌, Bool, true, false, not, ◌&&◌, ◌||◌, Option, none, some, List, [], ◌∷◌, ◌++◌,
  if◌then◌else◌, ◌==◌,
}
use lab_cpp.Base.Int.{ℤ, pos, eqb_ℤ}
use lab_cpp.Base.Text.{Text, codes, text_eq}
use lab_cpp.Base.Decimal.{print_ℕ}
use lab_cpp.Base.Key.{text_key}
use lab_cpp.Base.StdMap.{StdMap, find}
use lab_cpp.Curl.Callbacks.{Exchange}

pub data HttpMethod : Type 0 where
  get post put head patch delete : HttpMethod

-- An option that is set to 1, or CURLOPT_CUSTOMREQUEST with a method's name.
pub data MethodOption : Type 0 where
  http_get http_post http_put no_body : MethodOption
  custom_request : Text → MethodOption

abbrev pub has : Text → StdMap Text Text → Bool
has name headers = elim (find name headers) [ none ↦ false | some _ ↦ true ]

abbrev pub is_zero : Option Text → Bool
is_zero none = false
is_zero (some value) = text_eq value (codes "0")

-- The request says that it has no body.
unfoldable pub bodiless : StdMap Text Text → Bool
bodiless headers =
    (not (has (codes "content-length") headers) || is_zero (find (codes "content-length") headers))
    && not (has (codes "transfer-encoding") headers)

-- SetOptCodeForHttpMethod
unfoldable pub set_opt_code_for_http_method : HttpMethod → StdMap Text Text → List MethodOption
unfolding bodiless
set_opt_code_for_http_method get headers = http_get ∷ []
set_opt_code_for_http_method post headers =
    if is_zero (find (codes "content-length") headers)
    then custom_request (codes "POST") ∷ []
    else http_post ∷ []
set_opt_code_for_http_method put headers =
    if bodiless headers then custom_request (codes "PUT") ∷ [] else http_put ∷ []
set_opt_code_for_http_method head headers = http_get ∷ no_body ∷ []
set_opt_code_for_http_method patch headers =
    if bodiless headers
    then custom_request (codes "PATCH") ∷ []
    else http_post ∷ custom_request (codes "PATCH") ∷ []
set_opt_code_for_http_method delete headers = custom_request (codes "DELETE") ∷ []

abbrev pub discard : Text → StdMap Text Text → List Text
discard name headers = if has name headers then [] else (name ++ codes ":") ∷ []

unfoldable pub header_lines : StdMap Text Text → List Text
header_lines [] = []
header_lines ((name, value) ∷ headers) = (name ++ (codes ": " ++ value)) ∷ header_lines headers

-- The header lines that curl gets: those of the request, and empty ones for what curl would add.
unfoldable pub sent_headers : Bool → StdMap Text Text → List Text
unfolding header_lines
sent_headers disable_expect_header headers =
    header_lines headers
    ++ discard (codes "transfer-encoding") headers
    ++ discard (codes "content-length") headers
    ++ discard (codes "content-type") headers
    ++ (if disable_expect_header then codes "Expect:" ∷ [] else [])

pub data ClientError : Type 0 where
  network_connection user_cancelled : Text → ClientError

-- What curl and the client say once the transfer has ended; a curl code of 0 is CURLE_OK.
pub record Ended : Type 0 where
  pub curl_code : ℕ
  pub strerror : Text
  pub should_continue : Bool
  pub processing_enabled : Bool
  pub response_code : ℕ
  pub content_type : Option Text

pub record Response : Type 0 where
  pub client_error : Option ClientError
  pub response_code : Option ℕ
  pub content_type : Option Text

-- The check of the body's length; `to_int64` is that of the SDK.
unfoldable pub check_length : (Text → ℤ) → HttpMethod → Ended → Exchange → Option ClientError
check_length to_int64 head e x = none
check_length to_int64 method e x = elim (find (codes "content-length") x.headers) [
  | none ↦ none
  | some content_length ↦
      if e.processing_enabled
        && not (eqb_ℤ (to_int64 content_length) (pos x.num_bytes_response_received))
      then some (
          network_connection
            (codes "Response body length doesn't match the content-length header."))
      else none
]

-- The outcome of the transfer.
unfoldable pub finish_response : (Text → ℤ) → HttpMethod → Ended → Exchange → Response
unfolding check_length
finish_response to_int64 method e x =
    if e.should_continue
    then (if e.curl_code == 0
        then record {
          client_error = check_length to_int64 method e x;
          response_code = some e.response_code;
          content_type = e.content_type;
        }
        else record {
          client_error = some (
              network_connection
                (codes "curlCode: " ++ (print_ℕ e.curl_code ++ (codes ", " ++ e.strerror))));
          response_code = none;
          content_type = none;
        })
    else record {
      client_error =
          some (user_cancelled (codes "Request cancelled by user's continuation handler"));
      response_code = none;
      content_type = none;
    }
