-- ===== src/Examples/Requests.antt =====
-- A transfer of code/aws/curl/HttpClient.cpp, and a program's calls of code/aws/sdk-init.cc.
use lab_cpp.Base.{
  ℕ, zero, suc, ◌+◌, ◌≤◌, ◌++◌, take, ap, arith, length-append, ◌≡◌, refl, true, false, none, some,
  List, [], ◌∷◌, length,
}
use lab_cpp.Base.Int.{pos}
use lab_cpp.Base.Text.{codes, text_eq}
use lab_cpp.Base.StdMap.{find, set, place}
use lab_cpp.Curl.Callbacks.{
  empty_exchange, Setting, SdkText, write_data, write_header, add_header, pay, handle,
}
use lab_cpp.Curl.Request.{get, Ended, finish_response, check_length}
use lab_cpp.Curl.Request.Body.{Part, header, data_part, receive, response_whole}

take-all : (n : ℕ) (xs : List ℕ) → length xs ≤ n → take n xs ≡ xs
take-all zero [] h = refl
take-all (suc n) [] h = refl
take-all zero (x ∷ xs) h = absurd (omega (arith, h))
take-all (suc n) (x ∷ xs) h = ap (λ ys. x ∷ ys) (take-all n xs (omega (arith, h)))

-- A stream over a buffer of four bytes.
abbrev stored : List ℕ → List ℕ → List ℕ
stored body bytes = take 4 (body ++ bytes)

stored-room :
    (body bytes : List ℕ) → length body + length bytes ≤ 4 → stored body bytes ≡ body ++ bytes
stored-room body bytes h = take-all 4 (body ++ bytes) (omega (arith, length-append body bytes, h))

abbrev setting : Setting
setting = record { goes_on = true; limited = false; handler = true; stored = stored }

-- A client whose lines come as they are to be split.
abbrev sdk : SdkText
sdk = record {
  split = λ line. codes "content-length" ∷ line ∷ [];
  trim = λ t. t;
  stored_name = λ t. t;
}

abbrev parts : List Part
parts =
    header (some (codes "3"))
    ∷ data_part true (some (1 ∷ 2 ∷ []))
    ∷ data_part true (some (3 ∷ []))
    ∷ []

abbrev ended : Ended
ended = record {
  curl_code = 0;
  strerror = [];
  should_continue = true;
  processing_enabled = true;
  response_code = 200;
  content_type = none;
}

response_whole_example : length (receive setting sdk parts empty_exchange).body ≡ 3
unfolding receive empty_exchange write_data write_header add_header pay handle set place find
    text_eq finish_response check_length
response_whole_example =
    response_whole setting sdk (λ t. pos 3) get ended parts (codes "3") 3 4 stored-room
      (omega arith) (λ e. cc) refl refl refl refl
