-- ===== src/Base/StdMap.antt =====
-- std::map as the list of its entries in the order of the keys, and its laws.
pub mod Laws
use mathlib.Core.Path.{◌≡◌, refl}
use mathlib.Core.Bool.{Bool, true, false}
use mathlib.Core.Option.{Option, none, some}
use mathlib.Core.List.{List, [], ◌∷◌}
use native.Mathlib.Omega.{arith}
use lab_cpp.Base.Tests.{if◌then◌else◌}
use lab_cpp.Base.Key.{Key}

abbrev pub StdMap {ℓ κ} : Type ℓ → Type κ → Type (ℓ ⊔ κ)
StdMap K V = List (K × V)

module _ {ℓ κ} {K : Type ℓ} {V : Type κ} ⦃k : Key K⦄ where
  unfoldable pub find : K → StdMap K V → Option V
  find a [] = none
  find a ((b, v) ∷ m) = if k.same b a then some v else find a m

  -- Insertion of a key that is not there.
  unfoldable pub place : K → V → StdMap K V → StdMap K V
  place a v [] = (a, v) ∷ []
  place a v ((b, w) ∷ m) = if k.less a b then (a, v) ∷ (b, w) ∷ m else (b, w) ∷ place a v m

  unfoldable pub assign : K → V → StdMap K V → StdMap K V
  assign a v [] = []
  assign a v ((b, w) ∷ m) = if k.same b a then (b, v) ∷ m else (b, w) ∷ assign a v m

  -- `map[key] = value`
  unfoldable pub set : K → V → StdMap K V → StdMap K V
  set a v m = elim (find a m) [ none ↦ place a v m | some _ ↦ assign a v m ]

  unfoldable pub erase : K → StdMap K V → StdMap K V
  erase a [] = []
  erase a ((b, v) ∷ m) = if k.same b a then m else (b, v) ∷ erase a m
