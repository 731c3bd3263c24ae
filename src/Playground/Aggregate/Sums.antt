-- ===== src/Playground/Aggregate/Sums.antt =====
-- The sums that code/playground/mem-bandwidth.cc and core-affinity.cc log.
use lab_cpp.Base.{
  ℕ, zero, suc, ◌+◌, ◌*◌, ◌/◌, ◌^◌, ◌<◌, ◌≡◌, refl, Bool, true, not, ◌&&◌, Bool-cases, inl, inr,
  some, [], ◌∷◌, weigh, weigh-append, if◌then◌else◌, ltb, arith,
}
use lab_cpp.Base.Int.{ℤ, pos, eqb_ℤ}
use lab_cpp.Base.Text.{Text, codes, text_eq}
use lab_cpp.Logger.{LogEntry, Value, str, int64, double, new_entry, int_field, float_field}
use lab_cpp.Playground.Aggregate.{fill_values, add_int64, sum_values}

-- Twice the sum of `left` consecutive numbers from `i` on, added to twice a number.
pub sum_values-twice :
    (left i sum : ℕ)
    → sum + left * (i + left) < 2 ^ 63
    → (s : ℕ) × (sum_values (fill_values left i) sum ≡ some s)
      × (2 * s + left ≡ 2 * sum + left * (2 * i + left))
unfolding fill_values sum_values add_int64
sum_values-twice zero i sum h = (sum, refl, omega arith)
sum_values-twice (suc left) i sum h =
    let (s, e, q) = sum_values-twice left (i + 1) (sum + i) (omega (arith, h)) in
    let fits : ltb (sum + i) (2 ^ 63) ≡ true = ground (arith, h) in
    (s, rw (fits, e) refl, omega (arith, q))

-- 1 for a field that gives this sum.
abbrev pub gives_sum : ℤ → Text × Value → ℕ
gives_sum s (key, int64 v) = if text_eq key (codes "computed_sum") && eqb_ℤ v s then 1 else 0
gives_sum s (key, str v) = 0
gives_sum s (key, double v) = 0

-- How often an entry gives it.
abbrev pub reports : ℤ → LogEntry → ℕ
reports s entry = weigh (gives_sum s) entry

abbrev pub is_other : Text → Bool
is_other key = not (text_eq key (codes "computed_sum"))

other-gives : (s v : ℤ) (key : Text) → is_other key ≡ true → gives_sum s (key, int64 v) ≡ 0
other-gives s v key h = ground arith

sum-gives :
    (s : ℤ) (key : Text)
    → text_eq key (codes "computed_sum") ≡ true
    → gives_sum s (key, int64 s) ≡ 1
sum-gives s key h = ground arith

pub new_entry-reports :
    (s : ℤ) (container_runs now : ℕ) (msg : Text) → reports s (new_entry container_runs msg now) ≡ 0
unfolding new_entry text_eq
new_entry-reports s container_runs now msg = elim (Bool-cases (ltb 0 container_runs)) [
  | inl h ↦ rw h (
      omega (
        arith,
        other-gives s (pos (now / 1_000_000)) (codes "ts") refl,
        other-gives s (pos container_runs) (codes "run") refl,
      ))
  | inr h ↦ rw h (omega (arith, other-gives s (pos (now / 1_000_000)) (codes "ts") refl))
]

pub int_field-reports :
    (s v : ℤ) (key : Text) (entry : LogEntry)
    → is_other key ≡ true
    → reports s (int_field key v entry) ≡ reports s entry
unfolding int_field
int_field-reports s v key entry h =
    ground (arith, weigh-append (gives_sum s) entry ((key, int64 v) ∷ []))

pub float_field-reports :
    (s : ℤ) (v key : Text) (entry : LogEntry)
    → reports s (float_field key v entry) ≡ reports s entry
unfolding float_field
float_field-reports s v key entry =
    ground (arith, weigh-append (gives_sum s) entry ((key, double v) ∷ []))

pub computed_sum-reports :
    (s : ℤ) (entry : LogEntry)
    → reports s (int_field (codes "computed_sum") s entry) ≡ reports s entry + 1
unfolding int_field text_eq
computed_sum-reports s entry = omega (
  arith,
  weigh-append (gives_sum s) entry ((codes "computed_sum", int64 s) ∷ []),
  sum-gives s (codes "computed_sum") refl,
)
