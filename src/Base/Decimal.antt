-- ===== src/Base/Decimal.antt =====
-- Decimal numbers as iostreams print them and as std::stoll and std::stoi read them.
pub mod RoundTrip
use Prim.Native.Nat.{ℕ, zero, suc, ◌+◌, ◌-◌, ◌*◌, ◌/◌, ◌%◌, ◌^◌}
use mathlib.Core.Bool.{Bool, true, false, ◌&&◌, ◌||◌}
use mathlib.Core.List.{[], ◌∷◌, ◌++◌}
use lab_cpp.Base.Tests.{ltb, leb, ◌==◌, if◌then◌else◌}
use lab_cpp.Base.Int.{ℤ, pos, negsuc, ◌-ℤ◌}
use lab_cpp.Base.Text.{Text}
use lab_cpp.Base.Status.{Outcome, returns, throws, invalid_argument, out_of_range}

-- The last digit comes from the remainder; a number has fewer digits than its successor counts.
unfoldable pub digits_on : ℕ → ℕ → Text
digits_on zero n = []
digits_on (suc fuel) n =
    let front = digits_on fuel (n / 10) ++ (48 + n % 10) ∷ [] in
    if ltb n 10 then (48 + n) ∷ [] else front

unfoldable pub print_ℕ : ℕ → Text
unfolding digits_on
print_ℕ n = digits_on (suc n) n

-- `stream << value` for an int64_t.
unfoldable pub print_ℤ : ℤ → Text
unfolding print_ℕ
print_ℤ (pos n) = print_ℕ n
print_ℤ (negsuc n) = b'-' ∷ print_ℕ (suc n)

abbrev pub is_digit : ℕ → Bool
is_digit c = leb b'0' c && leb c b'9'

-- isspace of the C locale.
abbrev pub is_space : ℕ → Bool
is_space c = (c == 32) || (leb 9 c && leb c 13)

-- The digits at the front, read onto `n`, and the rest of the text.
unfoldable pub scan : ℕ → Text → ℕ × Text
scan n [] = (n, [])
scan n (c ∷ cs) = let more = scan (10 * n + (c - 48)) cs in if is_digit c then more else (n, c ∷ cs)

unfoldable pub skip_space : Text → Text
skip_space [] = []
skip_space (c ∷ cs) = if is_space c then skip_space cs else c ∷ cs

-- A number of `bits` bits with its sign, if it is in range.
unfoldable pub in_range : ℕ → Bool → ℕ → Outcome ℤ
in_range bits true m =
    if leb m (2 ^ (bits - 1)) then returns (pos 0 -ℤ pos m) else throws out_of_range
in_range bits false m = if ltb m (2 ^ (bits - 1)) then returns (pos m) else throws out_of_range

unfoldable pub unsigned : ℕ → Bool → Text → Outcome ℤ
unfolding scan in_range
unsigned bits negative [] = throws invalid_argument
unsigned bits negative (c ∷ cs) =
    if is_digit c then in_range bits negative (scan 0 (c ∷ cs)).0 else throws invalid_argument

unfoldable pub signed : ℕ → Text → Outcome ℤ
unfolding unsigned
signed bits [] = throws invalid_argument
signed bits (c ∷ cs) =
    if c == b'-'
    then unsigned bits true cs
    else (if c == b'+' then unsigned bits false cs else unsigned bits false (c ∷ cs))

-- std::stoll and std::stoi: white space, a sign, and the longest run of digits.
unfoldable pub stoll : Text → Outcome ℤ
unfolding signed skip_space
stoll text = signed 64 (skip_space text)

unfoldable pub stoi : Text → Outcome ℤ
unfolding signed skip_space
stoi text = signed 32 (skip_space text)
