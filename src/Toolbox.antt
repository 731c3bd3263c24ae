-- ===== src/Toolbox.antt =====
-- code/util/toolbox.h. A time_point is the nanoseconds since the epoch of the clock, and the
-- environment is an argument: the value of a variable, if it is set.
use lab_cpp.Base.{
  ℕ, zero, suc, ◌-◌, ◌/◌, ◌%◌, Bool, Option, none, some, [], ◌∷◌, ◌++◌, if◌then◌else◌, leb,
}
use lab_cpp.Base.Int.{ℤ, pos, ◌-ℤ◌}
use lab_cpp.Base.Text.{Text, codes, text_eq}
use lab_cpp.Base.Status.{Outcome, returns}
use lab_cpp.Base.Decimal.{stoi}

-- `duration_cast` of `end - start` to a unit of that many nanoseconds: it cuts towards zero.
unfoldable pub duration_in : ℕ → ℕ → ℕ → ℤ
duration_in unit start end =
    if leb start end then pos ((end - start) / unit) else pos 0 -ℤ pos ((start - end) / unit)

unfoldable pub get_duration_ms : ℕ → ℕ → ℤ
unfolding duration_in
get_duration_ms start end = duration_in 1_000_000 start end

unfoldable pub get_duration_micro : ℕ → ℕ → ℤ
unfolding duration_in
get_duration_micro start end = duration_in 1_000 start end

unfoldable pub getenv_int : Option Text → ℤ → Outcome ℤ
getenv_int none def = returns def
getenv_int (some raw_var) def = stoi raw_var

unfoldable pub getenv_bool : Option Text → Bool → Bool
getenv_bool none def = def
getenv_bool (some raw_var) def = text_eq raw_var (codes "true")

unfoldable pub getenv : Option Text → Text → Text
getenv none def = def
getenv (some raw_var) def = raw_var

abbrev pub charset : Text
charset =
    codes "0123456789" ++ codes "ABCDEFGHIJKLMNOPQRSTUVWXYZ" ++ codes "abcdefghijklmnopqrstuvwxyz"

abbrev pub char_at : ℕ → Text → ℕ
char_at i [] = 0
char_at zero (c ∷ cs) = c
char_at (suc i) (c ∷ cs) = char_at i cs

-- `max_index` is the length of the set: sizeof counts the final 0 too.
abbrev pub max_index : ℕ
max_index = 62

unfoldable pub random_alphanum : ℕ → ℕ
random_alphanum now = char_at (now % max_index) charset
