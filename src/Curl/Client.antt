-- ===== src/Curl/Client.antt =====
-- MakeRequest of code/aws/curl/HttpClient.cpp as the threads of the program call it, on any number
-- of clients with configurations of their own: the cache of handles is static, and so common to them.
-- Each call takes a handle, sets its options and lets curl perform the request, resets the handle, and
-- gives it back. Each of these is an action, so that calls interleave; the response between them is
-- Curl/Request's.
pub mod Exclusive
pub mod Fresh
use lab_cpp.Base.{
  ℕ, ◌+◌, ◌≡◌, Bool, true, false, Option, none, some, List, [], ◌∷◌, ◌++◌, if◌then◌else◌, ◌==◌,
}
use lab_cpp.Base.Text.{Text}
use lab_cpp.Base.StdMap.{StdMap}
use lab_cpp.Curl.Handles
use lab_cpp.Curl.Handles.{
  Pool, Acquired, acquire, lend, release_for, destroy_for, end_loan, set_default_options,
}
use lab_cpp.Curl.Request.{HttpMethod, set_opt_code_for_http_method, sent_headers}
use lab_cpp.Curl.Options.{CurlOption, defaults, Build, CurlHttpClient, request_options}

-- What MakeRequest reads of a request.
pub record HttpRequest : Type 0 where
  pub authority : Text
  pub uri : Text
  pub method : HttpMethod
  pub headers : StdMap Text Text
  pub has_body : Bool

-- A call of `curl_easy_perform`: the client, the handle, the request, and the options that the handle then has.
pub record Performed : Type 0 where
  pub client : ℕ
  pub handle : ℕ
  pub request : HttpRequest
  pub options : List CurlOption

-- The handles with their loans, the options that are set on each handle, the handles that a call has
-- reset and not yet given back, and the calls of curl so far, the last one first.
pub record Client : Type 0 where
  pub pool : Pool
  pub options : ℕ → List CurlOption
  pub cleared : ℕ → Bool
  pub performed : List Performed

unfoldable pub initial : Client
initial = record { pool = Handles.initial; options = λ h. []; cleared = λ h. false; performed = [] }

abbrev pub update {ℓ} : {A : Type ℓ} → ℕ → A → (ℕ → A) → ℕ → A
update h value f k = if k == h then value else f k

-- `which` is the client that is called; `ends` and `releases` are the two halves of a call's end.
pub data Action : Type 0 where
  begins : (new_handle new_share : Option ℕ) (which : ℕ) (request : HttpRequest) → Action
  ends : (authority : Text) (handle curl_code : ℕ) → Action
  releases : (authority : Text) (handle : ℕ) → Action

-- The options that a call of MakeRequest sets on its handle.
unfoldable pub set_options : Build → CurlHttpClient → HttpRequest → List CurlOption
set_options build client r =
    defaults (set_default_options client.curl_handle_container)
    ∷ request_options build client (sent_headers client.config.disable_expect_header r.headers)
        (set_opt_code_for_http_method r.method r.headers) r.uri r.has_body

-- ReleaseCurlHandle before the cache gets the handle: `curl_easy_reset` leaves no option on it.
unfoldable pub reset_handle : Text → ℕ → Client → Option Client
reset_handle authority h c = elim (end_loan authority h c.pool.borrowed) [
  | none ↦ none
  | some left ↦
      some (record c { options = update h [] c.options; cleared = update h true c.cleared })
]

unfoldable pub give_back : ℕ → (ℕ → List CurlOption) → Option Pool → Client → Option Client
give_back h options none c = none
give_back h options (some pool) c =
    some (record c { pool = pool; options = options; cleared = update h false c.cleared })

-- The end of a call: DestroyCurlHandle, whose `curl_easy_cleanup` leaves no option on the handle, or
-- the first half of ReleaseCurlHandle.
unfoldable pub end_request : Text → ℕ → (curl_code : ℕ) → Client → Option Client
unfolding reset_handle give_back Handles.next
end_request authority h curl_code c =
    if c.cleared h
    then none
    else if curl_code == 0
    then reset_handle authority h c
    else give_back h (update h [] c.options) (Handles.next (destroy_for authority h) c.pool) c

-- The second half of ReleaseCurlHandle, for a handle that has been reset.
unfoldable pub release_request : Text → ℕ → Client → Option Client
unfolding give_back Handles.next
release_request authority h c =
    if c.cleared h
    then give_back h c.options (Handles.next (release_for authority h) c.pool) c
    else none

module _ (build : Build) (clients : ℕ → CurlHttpClient) where
  -- A new handle has no options; one from the cache has those that it came with.
  unfoldable pub perform : ℕ → HttpRequest → Acquired → Client → Client
  unfolding set_options lend
  perform which r got c = elim got.handle [
    | none ↦ record c { pool = lend r.authority got c.pool }
    | some h ↦
        let used =
          (if got.reused then c.options h else []) ++ set_options build (clients which) r in
        record c {
          pool = lend r.authority got c.pool;
          options = update h used c.options;
          cleared = update h false c.cleared;
          performed =
              record { client = which; handle = h; request = r; options = used } ∷ c.performed;
        }
  ]

  -- AcquireCurlHandle, the settings and `curl_easy_perform`; `new_handle` and `new_share` are what
  -- curl gives if it is asked for them.
  unfoldable pub begin_request :
      (new_handle new_share : Option ℕ) (which : ℕ) → HttpRequest → Client → Client
  unfolding perform acquire
  begin_request new_handle new_share which r c =
      perform which r (acquire new_handle new_share r.authority c.pool.cache) c

  unfoldable pub next : Action → Client → Option Client
  unfolding begin_request end_request release_request
  next (begins new_handle new_share which r) c = some (begin_request new_handle new_share which r c)
  next (ends authority h curl_code) c = end_request authority h curl_code c
  next (releases authority h) c = release_request authority h c
