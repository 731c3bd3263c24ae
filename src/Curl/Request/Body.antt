-- ===== src/Curl/Request/Body.antt =====
-- What the callbacks of code/aws/curl/HttpClient.cpp make of a response.
use lab_cpp.Base.{
  ℕ, map, ◌≡◌, ◌≢◌, refl, Bool, true, Option, none, some, List, [], ◌∷◌, length, length-append,
  if◌then◌else◌, arith, ap, ◌∙◌, sym, ◌≤◌, ◌+◌, ◌++◌,
}
use lab_cpp.Base.Int.{ℤ, pos, pos_part, eq_of_parts}
use lab_cpp.Base.Text.{Text, codes}
use lab_cpp.Base.Key.{text_key}
use lab_cpp.Base.StdMap.{StdMap, find, set, place, assign}
use lab_cpp.Curl.Callbacks.{
  Exchange, empty_exchange, Setting, SdkText, pay, handle, write_data, add_header, write_header,
}
use lab_cpp.Curl.Request.{HttpMethod, head, Ended, check_length, finish_response}

-- What curl hands over in the course of a transfer, and whether the request goes on at that time.
pub data Part : Type 0 where
  header : Option Text → Part
  data_part : (goes_on : Bool) → Option (List ℕ) → Part

module _ (setting : Setting) (sdk : SdkText) where
  unfoldable pub receive : List Part → Exchange → Exchange
  unfolding write_header write_data
  receive [] x = x
  receive (header line ∷ parts) x = receive parts (write_header setting sdk line x).1
  receive (data_part goes_on bytes ∷ parts) x =
      receive parts (write_data (record setting { goes_on = goes_on }) bytes x).1

  -- The stream of the body takes what it has room for.
  abbrev pub IsStream : ℕ → Type 0
  IsStream room =
      (body bytes : List ℕ)
      → length body + length bytes ≤ room
      → setting.stored body bytes ≡ body ++ bytes

  module _ (room : ℕ) (stream : IsStream room) where
    -- What has been counted, if there was room for it, is in the body.
    abbrev Counted : Exchange → Type 0
    Counted x = x.num_bytes_response_received ≤ room → length x.body ≡ x.num_bytes_response_received

    write_data-Counted :
        (goes_on : Bool) (bytes : Option (List ℕ)) (x : Exchange)
        → Counted x
        → Counted (write_data (record setting { goes_on = goes_on }) bytes x).1
    unfolding write_data pay handle
    write_data-Counted goes_on none x c = c
    write_data-Counted goes_on (some bytes) x c =
        ground (arith, stream x.body bytes, length-append x.body bytes, c)

    add_header-Counted :
        (words : List Text) (x : Exchange) → Counted x → Counted (add_header setting sdk words x)
    unfolding add_header handle
    add_header-Counted [] x c = c
    add_header-Counted (a ∷ []) x c = c
    add_header-Counted (a ∷ b ∷ []) x c = ground (arith, c)
    add_header-Counted (a ∷ b ∷ d ∷ words) x c = c

    receive-Counted : (parts : List Part) (x : Exchange) → Counted x → Counted (receive parts x)
    unfolding receive write_header
    receive-Counted [] x c = c
    receive-Counted (header none ∷ parts) x c = receive-Counted parts x c
    receive-Counted (header (some line) ∷ parts) x c =
        receive-Counted parts (add_header setting sdk (sdk.split line) x)
          (add_header-Counted (sdk.split line) x c)
    receive-Counted (data_part goes_on bytes ∷ parts) x c =
        receive-Counted parts (write_data (record setting { goes_on = goes_on }) bytes x).1
          (write_data-Counted goes_on bytes x c)

check_length-none :
    (to_int64 : Text → ℤ) (method : HttpMethod) (e : Ended) (x : Exchange) (content_length : Text)
    → method ≢ head
    → e.processing_enabled ≡ true
    → find (codes "content-length") x.headers ≡ some content_length
    → check_length to_int64 method e x ≡ none
    → to_int64 content_length ≡ pos x.num_bytes_response_received
unfolding check_length
check_length-none to_int64 head e x content_length m p f h = absurd (m refl)
check_length-none to_int64 _ e x content_length m p f h =
    ground (arith, eq_of_parts (to_int64 content_length) (pos x.num_bytes_response_received))

-- A response without an error is whole: whatever curl has handed over, if the request was not a HEAD
-- and processing is enabled, if the response has a content-length header that says `size` bytes, and
-- if the stream of the body takes all that it is given up to `room` bytes, with room for `size`, then
-- its body has `size` bytes.
pub response_whole :
    (setting : Setting) (sdk : SdkText) (to_int64 : Text → ℤ) (method : HttpMethod) (e : Ended)
    (parts : List Part) (content_length : Text) (size room : ℕ)
    → IsStream setting sdk room
    → size ≤ room
    → method ≢ head
    → e.processing_enabled ≡ true
    → find (codes "content-length") (receive setting sdk parts empty_exchange).headers
      ≡ some content_length
    → to_int64 content_length ≡ pos size
    → (finish_response to_int64 method e (receive setting sdk parts empty_exchange)).client_error
      ≡ none
    → length (receive setting sdk parts empty_exchange).body ≡ size
unfolding finish_response empty_exchange
response_whole setting sdk to_int64 method e parts content_length size room stream fits m p f n h =
    let x = receive setting sdk parts empty_exchange in
    let received : size ≡ x.num_bytes_response_received =
      ap pos_part
        (sym n ∙ check_length-none to_int64 method e x content_length m p f (ground arith)) in
    omega (
      arith,
      received,
      fits,
      receive-Counted setting sdk room stream parts empty_exchange (λ z. refl)
          (omega (arith, received, fits)),
    )

-- What the handler of received data is to hear of the headers.
abbrev pub announced : Setting → StdMap Text Text → List ℕ
announced setting [] = []
announced setting (entry ∷ headers) = if setting.handler then 0 ∷ [] else []

set-announced :
    (setting : Setting) (name value : Text) (headers : StdMap Text Text)
    → announced setting (set name value headers) ≡ (if setting.handler then 0 ∷ [] else [])
unfolding set place assign find
set-announced setting name value [] = refl
set-announced setting name value ((b, v) ∷ headers) = ground arith

add_header-announced :
    (setting : Setting) (sdk : SdkText) (words : List Text) (x : Exchange)
    → x.handled ≡ announced setting x.headers
    → (add_header setting sdk words x).handled
      ≡ announced setting (add_header setting sdk words x).headers
unfolding add_header handle
add_header-announced setting sdk [] x h = h
add_header-announced setting sdk (a ∷ []) x h = h
add_header-announced setting sdk (a ∷ b ∷ []) x h =
    ground (arith, set-announced setting (sdk.stored_name (sdk.trim a)) (sdk.trim b) x.headers)
add_header-announced setting sdk (a ∷ b ∷ d ∷ words) x h = h

receive-announced :
    (setting : Setting) (sdk : SdkText) (lines : List (Option Text)) (x : Exchange)
    → x.handled ≡ announced setting x.headers
    → (receive setting sdk (map header lines) x).handled
      ≡ announced setting (receive setting sdk (map header lines) x).headers
unfolding receive write_header
receive-announced setting sdk [] x h = h
receive-announced setting sdk (none ∷ lines) x h = receive-announced setting sdk lines x h
receive-announced setting sdk (some line ∷ lines) x h =
    receive-announced setting sdk lines (add_header setting sdk (sdk.split line) x)
      (add_header-announced setting sdk (sdk.split line) x h)

-- The handler hears of the headers once: after any header lines of a new response, it has been called
-- once, with size 0, if there is a handler and the response has a header, and never otherwise.
pub headers_announced :
    (setting : Setting) (sdk : SdkText) (lines : List (Option Text))
    → (receive setting sdk (map header lines) empty_exchange).handled
      ≡ announced setting (receive setting sdk (map header lines) empty_exchange).headers
unfolding empty_exchange
headers_announced setting sdk lines = receive-announced setting sdk lines empty_exchange refl
