-- ===== src/Base/Key.antt =====
-- Keys of the standard maps: an order, and a test that finds equal keys.
use Prim.Native.Nat.{ℕ}
use mathlib.Core.Path.{◌≡◌}
use mathlib.Core.Bool.{Bool, true}
use native.Mathlib.Omega.{arith}
use lab_cpp.Base.Tests.{◌==◌, ltb}
use lab_cpp.Base.Text.{Text, text_eq, text_lt, text_eq_of, text_eq_refl}

pub record Key {ℓ} (K : Type ℓ) : Type ℓ where
  pub less : K → K → Bool
  pub same : K → K → Bool
  pub same_of : (a b : K) → same a b ≡ true → a ≡ b
  pub same_refl : (a : K) → same a a ≡ true

pub nat_same_of : (a b : ℕ) → (a == b) ≡ true → a ≡ b
nat_same_of a b h = ground arith

pub nat_same_refl : (a : ℕ) → (a == a) ≡ true
nat_same_refl a = ground arith

instance abbrev pub nat_key : Key ℕ
nat_key = record { less = ltb; same = ◌==◌; same_of = nat_same_of; same_refl = nat_same_refl }

instance abbrev pub text_key : Key Text
text_key = record { less = text_lt; same = text_eq; same_of = text_eq_of; same_refl = text_eq_refl }
