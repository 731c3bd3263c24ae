-- ===== src/Base/StdMap/Laws.antt =====
-- What the operations of a map do to a lookup, to the keys and to the sum of the values.
use Prim.Native.Nat.{ℕ, ◌+◌}
use mathlib.Core.Path.{◌≡◌, refl}
use mathlib.Core.Bool.{false}
use mathlib.Core.Option.{none, some}
use mathlib.Core.Logic.{◌≢◌, inl, inr}
use mathlib.Core.List.{[], ◌∷◌}
use native.Mathlib.Omega.{arith}
use lab_cpp.Base.Tests.{if◌then◌else◌, Option-cases}
use lab_cpp.Base.Lists.{weigh}
use lab_cpp.Base.Key.{Key}
use lab_cpp.Base.StdMap.{StdMap, find, place, assign, set, erase}

-- No key stands twice.
abbrev pub Distinct {ℓ κ} : {K : Type ℓ} {V : Type κ} ⦃k : Key K⦄ → StdMap K V → Type κ
Distinct [] = Unit
Distinct ((b, v) ∷ m) = (find b m ≡ none) × Distinct m

module _ {ℓ κ} {K : Type ℓ} {V : Type κ} ⦃k : Key K⦄ where
  find-place :
      (j a : K) (v : V) (m : StdMap K V)
      → find a m ≡ none
      → find j (place a v m) ≡ (if k.same a j then some v else find j m)
  unfolding find place
  find-place j a v [] h = refl
  find-place j a v ((b, w) ∷ m) h =
      ground (arith, find-place j a v m, k.same_of a j, k.same_of b j, k.same_refl j)

  find-assign :
      (j a : K) (v : V) (m : StdMap K V)
      → find a m ≢ none
      → find j (assign a v m) ≡ (if k.same a j then some v else find j m)
  unfolding find assign
  find-assign j a v [] h = absurd (h refl)
  find-assign j a v ((b, w) ∷ m) h =
      ground
        (arith, find-assign j a v m, k.same_of a j, k.same_of b j, k.same_of b a, k.same_refl j)

  -- A write is seen under its key, and under no other.
  pub find-set :
      (j a : K) (v : V) (m : StdMap K V)
      → find j (set a v m) ≡ (if k.same a j then some v else find j m)
  unfolding set
  find-set j a v m = elim (Option-cases (find a m)) [
    | inl e ↦ rw (e, set) (find-place j a v m e)
    | inr (w, e) ↦ rw (e, set) (find-assign j a v m (λ n. ground arith))
  ]

  -- A removal leaves the other keys.
  pub find-erase_ne :
      (j a : K) (m : StdMap K V) → k.same a j ≡ false → find j (erase a m) ≡ find j m
  unfolding find erase
  find-erase_ne j a [] h = refl
  find-erase_ne j a ((b, w) ∷ m) h =
      ground (arith, find-erase_ne j a m, k.same_of b a, k.same_of b j)

  pub find-erase_self : (a : K) (m : StdMap K V) → Distinct m → find a (erase a m) ≡ none
  unfolding find erase
  find-erase_self a [] d = refl
  find-erase_self a ((b, w) ∷ m) d = ground (arith, find-erase_self a m d.1, k.same_of b a)

  place-Distinct :
      (a : K) (v : V) (m : StdMap K V) → find a m ≡ none → Distinct m → Distinct (place a v m)
  unfolding find place
  place-Distinct a v [] h d = ground arith
  place-Distinct a v ((b, w) ∷ m) h d =
      ground (arith, place-Distinct a v m, find-place b a v m, k.same_of a b, k.same_refl b)

  assign-Distinct :
      (a : K) (v : V) (m : StdMap K V) → find a m ≢ none → Distinct m → Distinct (assign a v m)
  unfolding find assign
  assign-Distinct a v [] h d = tt
  assign-Distinct a v ((b, w) ∷ m) h d =
      ground (arith, assign-Distinct a v m, find-assign b a v m, k.same_of a b, k.same_refl b)

  pub set-Distinct : (a : K) (v : V) (m : StdMap K V) → Distinct m → Distinct (set a v m)
  unfolding set
  set-Distinct a v m d = elim (Option-cases (find a m)) [
    | inl e ↦ rw (e, set) (place-Distinct a v m e d)
    | inr (w, e) ↦ rw (e, set) (assign-Distinct a v m (λ n. ground arith) d)
  ]

  pub erase-Distinct : (a : K) (m : StdMap K V) → Distinct m → Distinct (erase a m)
  unfolding find erase
  erase-Distinct a [] d = tt
  erase-Distinct a ((b, w) ∷ m) d =
      ground (arith, erase-Distinct a m d.1, find-erase_ne b a m, k.same_of a b, k.same_refl b)

-- The sum of the values under a weight.
module _ {ℓ κ} {K : Type ℓ} {V : Type κ} ⦃k : Key K⦄ (w : V → ℕ) where
  abbrev pub total : StdMap K V → ℕ
  total m = weigh (λ e. w e.1) m

  total-place : (a : K) (v : V) (m : StdMap K V) → total (place a v m) ≡ total m + w v
  unfolding place
  total-place a v [] = omega arith
  total-place a v ((b, u) ∷ m) = ground (arith, total-place a v m)

  total-assign :
      (a : K) (v u : V) (m : StdMap K V)
      → find a m ≡ some u
      → total (assign a v m) + w u ≡ total m + w v
  unfolding find assign
  total-assign a v u [] h = ground arith
  total-assign a v u ((b, x) ∷ m) h = ground (arith, total-assign a v u m)

  pub total-set_new :
      (a : K) (v : V) (m : StdMap K V) → find a m ≡ none → total (set a v m) ≡ total m + w v
  unfolding set
  total-set_new a v m e = rw (e, set) (total-place a v m)

  pub total-set_old :
      (a : K) (v u : V) (m : StdMap K V)
      → find a m ≡ some u
      → total (set a v m) + w u ≡ total m + w v
  unfolding set
  total-set_old a v u m e = rw (e, set) (total-assign a v u m e)

  pub total-erase :
      (a : K) (u : V) (m : StdMap K V) → find a m ≡ some u → total (erase a m) + w u ≡ total m
  unfolding find erase
  total-erase a u [] h = ground arith
  total-erase a u ((b, x) ∷ m) h = ground (arith, total-erase a u m)

-- The entries that a removal leaves were there before.
module _ {ℓ κ} {K : Type ℓ} {V : Type κ} ⦃k : Key K⦄ where
  pub find_of_erase :
      (j a : K) (v : V) (m : StdMap K V)
      → Distinct m
      → find j (erase a m) ≡ some v
      → find j m ≡ some v
  find_of_erase j a v m d h =
      ground (arith, find-erase_ne j a m, find-erase_self a m d, k.same_of a j)

  pub erase_missing : (a : K) (m : StdMap K V) → find a m ≡ none → erase a m ≡ m
  unfolding find erase
  erase_missing a [] h = refl
  erase_missing a ((b, w) ∷ m) h = ground (arith, erase_missing a m)
