-- ===== src/Base/Decimal/RoundTrip.antt =====
-- What is printed is read back.
use Prim.Native.Nat.{ℕ, zero, suc, ◌+◌, ◌*◌, ◌/◌, ◌%◌, ◌^◌, ◌<◌}
use mathlib.Core.Path.{◌≡◌, sym, ap, ◌∙◌}
use mathlib.Core.Logic.{inl, inr}
use mathlib.Core.Bool.{true, false}
use mathlib.Core.List.{[], ◌∷◌, ◌++◌, append-nil, append_assoc}
use native.Mathlib.Omega.{arith}
use lab_cpp.Base.Tests.{ltb, Bool-cases}
use lab_cpp.Base.Int.{pos}
use lab_cpp.Base.Text.{Text}
use lab_cpp.Base.Status.{returns}
use lab_cpp.Base.Decimal.{digits_on, print_ℕ, is_digit, scan, in_range, stoll}

-- The text begins with no digit.
abbrev pub EndsNumber : Text → Type 0
EndsNumber [] = Unit {0}
EndsNumber (c ∷ cs) = is_digit c ≡ false

scan-digit : (n d : ℕ) (rest : Text) → d < 10 → scan n ((48 + d) ∷ rest) ≡ scan (10 * n + d) rest
unfolding scan
scan-digit n d rest h = ground arith

scan-digits_on :
    (fuel n : ℕ) (rest : Text) → n < fuel → scan 0 (digits_on fuel n ++ rest) ≡ scan n rest
unfolding digits_on
scan-digits_on zero n rest h = absurd (omega arith)
scan-digits_on (suc fuel) n rest h = elim (Bool-cases (ltb n 10)) [
  | inl e ↦ rw e (scan-digit 0 n rest (ground arith) ∙ ap (λ m. scan m rest) (omega arith))
  | inr e ↦ rw e (
      ap (scan 0) (append_assoc (digits_on fuel (n / 10)) ((48 + n % 10) ∷ []) rest)
      ∙ scan-digits_on fuel (n / 10) ((48 + n % 10) ∷ rest) (ground arith)
      ∙ scan-digit (n / 10) (n % 10) rest (omega arith)
      ∙ ap (λ m. scan m rest) (omega arith))
]

-- A printed number is read back, whatever follows that is no digit.
pub scan-print : (n : ℕ) (rest : Text) → EndsNumber rest → scan 0 (print_ℕ n ++ rest) ≡ (n, rest)
unfolding print_ℕ scan
scan-print n [] h = scan-digits_on (suc n) n [] (omega arith)
scan-print n (c ∷ cs) h = scan-digits_on (suc n) n (c ∷ cs) (omega arith) ∙ rw h

-- A printed number begins with a digit.
digits_on-front :
    (fuel n : ℕ) (rest : Text)
    → n < fuel
    → (c : ℕ) × (cs : Text) × (digits_on fuel n ++ rest ≡ c ∷ cs) × (is_digit c ≡ true)
unfolding digits_on
digits_on-front zero n rest h = absurd (omega arith)
digits_on-front (suc fuel) n rest h = elim (Bool-cases (ltb n 10)) [
  | inl e ↦ (48 + n, rest, rw e, ground arith)
  | inr e ↦
      let (c, cs, p, d) = digits_on-front fuel (n / 10) ((48 + n % 10) ∷ rest) (ground arith) in
      (c, cs, rw e (append_assoc (digits_on fuel (n / 10)) ((48 + n % 10) ∷ []) rest ∙ p), d)
]

stoll-digit :
    (c : ℕ) (cs : Text) → is_digit c ≡ true → stoll (c ∷ cs) ≡ in_range 64 false (scan 0 (c ∷ cs)).0
unfolding stoll
stoll-digit c cs h = ground arith

in_range-pos : (n : ℕ) → n < 2 ^ 63 → in_range 64 false n ≡ returns (pos n)
unfolding in_range
in_range-pos n h = ground arith

-- std::stoll reads back a printed number that fits.
pub stoll-print :
    (n : ℕ) (rest : Text)
    → n < 2 ^ 63
    → EndsNumber rest
    → stoll (print_ℕ n ++ rest) ≡ returns (pos n)
unfolding print_ℕ
stoll-print n rest h e =
    let (c, cs, p, d) = digits_on-front (suc n) n rest (omega arith) in
    ap stoll p
    ∙ stoll-digit c cs d
    ∙ ap (λ t. in_range 64 false (scan 0 t).0) (sym p)
    ∙ ap (λ (r : ℕ × Text). in_range 64 false r.0) (scan-print n rest e)
    ∙ in_range-pos n h

pub print-front :
    (n : ℕ) (rest : Text)
    → (c : ℕ) × (cs : Text) × (print_ℕ n ++ rest ≡ c ∷ cs) × (is_digit c ≡ true)
unfolding print_ℕ
print-front n rest = digits_on-front (suc n) n rest (omega arith)

pub scan-print_end : (n : ℕ) → scan 0 (print_ℕ n) ≡ (n, [])
scan-print_end n = ap (scan 0) (sym (append-nil (print_ℕ n))) ∙ scan-print n [] tt
