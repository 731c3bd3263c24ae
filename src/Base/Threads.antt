-- ===== src/Base/Threads.antt =====
-- The threads of a pool, by number: the state of each, and what the first `n` of them sum up to.
use Prim.Native.Nat.{ℕ, zero, suc, ◌+◌, ◌≤◌, ◌<◌}
use mathlib.Core.Path.{◌≡◌, refl}
use mathlib.Core.Logic.{inl, inr}
use native.Mathlib.Omega.{arith}
use lab_cpp.Base.Tests.{◌==◌, ltb, if◌then◌else◌, Bool-cases}

-- The same threads with thread `i` in state `a`.
abbrev pub move {ℓ} : {A : Type ℓ} → ℕ → A → (ℕ → A) → ℕ → A
move i a threads j = if i == j then a else threads j

module _ {ℓ} {A : Type ℓ} (w : A → ℕ) where
  unfoldable pub sum_below : ℕ → (ℕ → A) → ℕ
  sum_below zero threads = 0
  sum_below (suc n) threads = w (threads n) + sum_below n threads

  sum_below-move_above :
      (n i : ℕ) (a : A) (threads : ℕ → A)
      → n ≤ i
      → sum_below n (move i a threads) ≡ sum_below n threads
  unfolding sum_below
  sum_below-move_above zero i a threads h = refl
  sum_below-move_above (suc n) i a threads h = ground (arith, sum_below-move_above n i a threads)

  -- A move of one thread exchanges its share of the sum.
  pub sum_below-move :
      (n i : ℕ) (a : A) (threads : ℕ → A)
      → i < n
      → sum_below n (move i a threads) + w (threads i) ≡ sum_below n threads + w a
  unfolding sum_below
  sum_below-move zero i a threads h = absurd (omega arith)
  sum_below-move (suc n) i a threads h = elim (Bool-cases (ltb i n)) [
    | inl e ↦ ground (arith, sum_below-move n i a threads)
    | inr e ↦ ground (arith, sum_below-move_above n i a threads)
  ]

  pub sum_below-eq-zero :
      (n : ℕ) (threads : ℕ → A) → ((i : ℕ) → i < n → w (threads i) ≡ 0) → sum_below n threads ≡ 0
  unfolding sum_below
  sum_below-eq-zero zero threads h = refl
  sum_below-eq-zero (suc n) threads h =
      omega (arith, h n (omega arith), sum_below-eq-zero n threads (λ i lt. h i (omega arith)))

  pub sum_below-le : (n i : ℕ) (threads : ℕ → A) → i < n → w (threads i) ≤ sum_below n threads
  unfolding sum_below
  sum_below-le zero i threads h = absurd (omega arith)
  sum_below-le (suc n) i threads h = elim (Bool-cases (i == n)) [
    | inl e ↦ ground arith
    | inr e ↦ ground (arith, sum_below-le n i threads)
  ]
