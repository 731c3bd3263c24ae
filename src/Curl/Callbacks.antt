-- ===== src/Curl/Callbacks.antt =====
-- The functions of code/aws/curl/HttpClient.cpp that curl calls while a request runs. What they ask
-- of the request, of the client and of the AWS SDK's string functions is an argument.
use lab_cpp.Base.{
  ℕ, ◌+◌, Bool, true, false, Option, none, some, List, [], ◌∷◌, ◌++◌, length, if◌then◌else◌, ltb,
}
use lab_cpp.Base.Int.{ℤ}
use lab_cpp.Base.Text.{Text}
use lab_cpp.Base.Key.{text_key}
use lab_cpp.Base.StdMap.{StdMap, set}

-- What a request has brought so far: the body and the headers of its response, the bytes that the
-- write context has counted, what the rate limiter was asked to pay, and the sizes that the handler
-- of received data, or that of sent data, was called with.
pub record Exchange : Type 0 where
  pub body : List ℕ
  pub headers : StdMap Text Text
  pub num_bytes_response_received : ℕ
  pub paid : List ℕ
  pub handled : List ℕ

unfoldable pub empty_exchange : Exchange
empty_exchange = record {
  body = [];
  headers = [];
  num_bytes_response_received = 0;
  paid = [];
  handled = [];
}

-- What the client was configured with, and what its state is during a call: the request goes on and
-- processing is enabled; there is a rate limiter; there is a handler. `stored` is what the stream of
-- the response's body, which the program or the SDK provides, has after a write of some bytes, from what
-- it had before: a stream over a buffer of a fixed size may not take them all.
pub record Setting : Type 0 where
  pub goes_on : Bool
  pub limited : Bool
  pub handler : Bool
  pub stored : (body bytes : List ℕ) → List ℕ

unfoldable pub pay : Setting → ℕ → Exchange → Exchange
pay setting n x = if setting.limited then record x { paid = x.paid ++ n ∷ [] } else x

unfoldable pub handle : Setting → ℕ → Exchange → Exchange
handle setting n x = if setting.handler then record x { handled = x.handled ++ n ∷ [] } else x

-- WriteData; the data are the `size * nmemb` bytes behind the pointer, if it is not null. The write is
-- not checked, and the bytes are counted whether or not the stream has taken them.
unfoldable pub write_data : Setting → Option (List ℕ) → Exchange → ℕ × Exchange
unfolding pay handle
write_data setting none x = (0, x)
write_data setting (some bytes) x =
    let p = pay setting (length bytes) x in
    let h = handle setting (length bytes) (record p { body = setting.stored p.body bytes }) in
    if setting.goes_on
    then (
      length bytes,
      record h { num_bytes_response_received = h.num_bytes_response_received + length bytes },
    )
    else (0, x)

-- The SDK's string functions: `Split(line, ':', 2)`, `Trim`, and the name under which AddHeader of a
-- response stores a header.
pub record SdkText : Type 0 where
  pub split : Text → List Text
  pub trim : Text → Text
  pub stored_name : Text → Text

-- WriteHeader on the parts of a line. The handler hears of the first header before the response has
-- it.
unfoldable pub add_header : Setting → SdkText → List Text → Exchange → Exchange
unfolding handle
add_header setting sdk (name ∷ value ∷ []) x =
    let h : Exchange = elim x.headers [ [] ↦ handle setting 0 x | _ ∷ _ ↦ x ] in
    record h { headers = set (sdk.stored_name (sdk.trim name)) (sdk.trim value) h.headers }
add_header setting sdk _ x = x

unfoldable pub write_header : Setting → SdkText → Option Text → Exchange → ℕ × Exchange
unfolding add_header
write_header setting sdk none x = (0, x)
write_header setting sdk (some line) x = (length line, add_header setting sdk (sdk.split line) x)

-- What ReadBody returns: a number of bytes, or CURL_READFUNC_ABORT.
pub data ReadResult : Type 0 where
  amount : ℕ → ReadResult
  abort : ReadResult

-- ReadBody: whether there is a context and a stream, the room in curl's buffer, and the number of
-- bytes that the stream has given.
unfoldable pub read_body :
    Setting
    → (context stream : Bool) → (amount_to_read gcount : ℕ) → Exchange
    → ReadResult × Exchange
unfolding pay handle
read_body setting false stream amount_to_read gcount x = (amount 0, x)
read_body setting true stream amount_to_read gcount x =
    let sent : ReadResult × Exchange =
      (amount gcount, pay setting gcount (handle setting gcount x)) in
    let unsent : ReadResult × Exchange = (amount 0, x) in
    if setting.goes_on
    then (if stream then (if ltb 0 amount_to_read then sent else unsent) else unsent)
    else (abort, x)

pub data SeekResult : Type 0 where
  seek_ok seek_fail seek_cant_seek : SeekResult

-- SEEK_SET, SEEK_CUR, SEEK_END, or another number.
pub data Origin : Type 0 where
  seek_set seek_cur seek_end other_origin : Origin

-- SeekBody: whether the stream fails on a seek is its own.
unfoldable pub seek_body :
    Setting → (context : Bool) → (fails : ℤ → Origin → Bool) → ℤ → Origin → SeekResult
seek_body setting false fails offset origin = seek_fail
seek_body setting true fails offset other_origin = seek_fail
seek_body setting true fails offset origin =
    if setting.goes_on then (if fails offset origin then seek_cant_seek else seek_ok) else seek_fail
