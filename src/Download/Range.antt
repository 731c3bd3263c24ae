-- ===== src/Download/Range.antt =====
-- The helpers of code/aws/downloader.cc that read and write the headers of a range request.
use lab_cpp.Base.{Option, none, some, [], ◌∷◌, ◌++◌, if◌then◌else◌, ◌==◌}
use lab_cpp.Base.Int.{ℤ, pos, ◌+ℤ◌, ◌-ℤ◌}
use lab_cpp.Base.Text.{Text, codes}
use lab_cpp.Base.Decimal.{print_ℤ, stoll}
use lab_cpp.Base.Status.{io_error, Result, ok, err, Outcome, returns, throws}

unfoldable pub format_range : Option ℤ → ℤ → Text
format_range none end = codes "bytes=" ++ (codes "-" ++ print_ℤ end)
format_range (some start) end = codes "bytes=" ++ (print_ℤ start ++ (codes "-" ++ print_ℤ end))

-- `find("/")` and `substr` from behind it: the text behind the first slash.
unfoldable pub after_slash : Text → Option Text
after_slash [] = none
after_slash (c ∷ cs) = if c == b'/' then some cs else after_slash cs

unfoldable pub sized : Outcome ℤ → Outcome (Result ℤ)
sized (returns size) = returns (ok size)
sized (throws e) = throws e

unfoldable pub parse_range : Text → Outcome (Result ℤ)
unfolding after_slash sized
parse_range response_range = elim (after_slash response_range) [
  | none ↦ returns (err io_error (codes "Unexpected content range: " ++ response_range))
  | some size ↦ sized (stoll size)
]

unfoldable pub calculate_length : Option ℤ → ℤ → ℤ
calculate_length none end = end
calculate_length (some start) end = end -ℤ start +ℤ pos 1
