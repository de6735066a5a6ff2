-- ===== src/Base/Count.antt =====
-- The sum of a function below a bound. It stays shut: the bounds in use are large.
use flash_mq.Base.{ℕ, zero, suc, ◌+◌, ◌<◌, ◌≡◌, ◌≢◌, refl, ap, arith, ℕ_discrete}

pub sum_below : ℕ → (ℕ → ℕ) → ℕ
sum_below zero f = 0
sum_below (suc n) f = f n + sum_below n f

module _ (f g : ℕ → ℕ) where
  pub sum_below-same : (n : ℕ) → ((j : ℕ) → j < n → f j ≡ g j) → sum_below n f ≡ sum_below n g
  unfolding sum_below
  sum_below-same zero h = refl
  sum_below-same (suc n) h =
      omega (arith, h n (omega arith), sum_below-same n (λ j l. h j (omega arith)))

  -- Two functions that differ at one place.
  pub sum_below-differ :
      (n i : ℕ)
      → i < n
      → ((j : ℕ) → j < n → j ≢ i → f j ≡ g j)
      → sum_below n f + g i ≡ sum_below n g + f i
  unfolding sum_below
  sum_below-differ zero i l h = absurd (omega arith)
  sum_below-differ (suc n) i l h = elim (ℕ_discrete n i) [
    | yes e ↦
        omega (arith, ap f e, ap g e, sum_below-same n (λ j k. h j (omega arith) (omega arith)))
    | no ne ↦
        omega (
          arith,
          h n (omega arith) ne,
          sum_below-differ n i (omega arith) (λ j k. h j (omega arith)),
        )
  ]

pub sum_below-zero : (n : ℕ) → sum_below n (λ _. 0) ≡ 0
unfolding sum_below
sum_below-zero zero = refl
sum_below-zero (suc n) = omega (arith, sum_below-zero n)

-- A sum of 0 has no positive part.
pub sum_below-vanish : (n : ℕ) (f : ℕ → ℕ) (j : ℕ) → sum_below n f ≡ 0 → j < n → f j ≡ 0
unfolding sum_below
sum_below-vanish zero f j h l = absurd (omega arith)
sum_below-vanish (suc n) f j h l = elim (ℕ_discrete j n) [
  | yes e ↦ omega (arith, ap f e)
  | no ne ↦ sum_below-vanish n f j (omega arith) (omega arith)
]
