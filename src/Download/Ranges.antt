-- ===== src/Download/Ranges.antt =====
-- What the helpers of code/aws/downloader.cc promise about the headers of a range request.
use lab_cpp.Base.{
  ℕ, ◌+◌, ◌-◌, ◌^◌, ◌≤◌, ◌<◌, ◌≡◌, refl, ap, false, Option, none, some, [], ◌∷◌, ◌++◌,
  if◌then◌else◌, ◌==◌, arith,
}
use lab_cpp.Base.Int.{ℤ, pos, ◌+ℤ◌, ◌-ℤ◌}
use lab_cpp.Base.Text.{Text, codes}
use lab_cpp.Base.Decimal.{print_ℕ, scan, stoll}
use lab_cpp.Base.Decimal.RoundTrip.{EndsNumber, stoll-print}
use lab_cpp.Base.Status.{io_error, ok, err, returns, throws, invalid_argument}
use lab_cpp.Download.Range.{after_slash, sized, parse_range, calculate_length}

-- No slash in the text.
abbrev pub NoSlash : Text → Type 0
NoSlash [] = Unit {0}
NoSlash (c ∷ cs) = ((c == b'/') ≡ false) × NoSlash cs

after_slash-append :
    (range rest : Text) → NoSlash range → after_slash (range ++ b'/' ∷ rest) ≡ some rest
unfolding after_slash
after_slash-append [] rest h = refl
after_slash-append (c ∷ cs) rest h = rw h.0 (after_slash-append cs rest h.1)

after_slash-none : (range : Text) → NoSlash range → after_slash range ≡ none
unfolding after_slash
after_slash-none [] h = refl
after_slash-none (c ∷ cs) h = rw h.0 (after_slash-none cs h.1)

-- From a Content-Range header `range/size` whose range has no slash, whatever else the range says, the
-- size of the file is read, if it fits an int64_t and no digit follows it.
pub parse_range-size :
    (range : Text) (size : ℕ) (rest : Text)
    → NoSlash range
    → size < 2 ^ 63
    → EndsNumber rest
    → parse_range (range ++ (b'/' ∷ (print_ℕ size ++ rest))) ≡ returns (ok (pos size))
unfolding parse_range
parse_range-size range size rest h k e =
    rw (after_slash-append range (print_ℕ size ++ rest) h, parse_range)
      (ap sized (stoll-print size rest k e))

stoll_star : stoll (b'*' ∷ []) ≡ throws invalid_argument
unfolding stoll
stoll_star = refl

-- For every text with no slash: as a header it is an error with the header in its message; with `/*`
-- behind it, by which a server says that it does not know the size, it makes the call throw.
pub parse_range_errors :
    (range : Text)
    → NoSlash range
    → (parse_range range ≡ returns (err io_error (codes "Unexpected content range: " ++ range)))
      × (parse_range (range ++ codes "/*") ≡ throws invalid_argument)
unfolding parse_range
parse_range_errors range h = (
  rw (after_slash-none range h, parse_range) refl,
  rw (after_slash-append range (b'*' ∷ []) h, parse_range) (ap sized stoll_star),
)

-- What a server reads in a Range header of one range: the first and the last byte, or the number of
-- bytes at the end of the file.
read_last : Option ℕ → ℕ × Text → Option (Option ℕ × ℕ)
read_last start (end, []) = some (start, end)
read_last start (end, c ∷ cs) = none

read_first : ℕ × Text → Option (Option ℕ × ℕ)
unfolding read_last
read_first (start, []) = none
read_first (start, c ∷ cs) = if c == b'-' then read_last (some start) (scan 0 cs) else none

pub read_range : Text → Option (Option ℕ × ℕ)
unfolding read_first read_last
read_range (c0 ∷ c1 ∷ c2 ∷ c3 ∷ c4 ∷ c5 ∷ c ∷ cs) =
    if c == b'-' then read_last none (scan 0 cs) else read_first (scan 0 (c ∷ cs))
read_range _ = none

abbrev pub as_int : Option ℕ → Option ℤ
as_int none = none
as_int (some n) = some (pos n)

-- A range from `start` to an `end` that is not before it, both counted, has `calculate_length` bytes;
-- so has the end of a file from which `end` bytes are asked for.
pub calculate_length-count :
    (start end : ℕ)
    → start ≤ end
    → (calculate_length (some (pos start)) (pos end) ≡ pos (end - start + 1))
      × (calculate_length none (pos end) ≡ pos end)
unfolding calculate_length ◌+ℤ◌ ◌-ℤ◌
calculate_length-count start end h = ground arith
