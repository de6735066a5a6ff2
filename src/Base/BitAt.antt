-- ===== src/Base/BitAt.antt =====
-- Single bits of a word, under `&`, `|` and `~`.
use Prim.Native.Nat.{bit_and, bit_or}
use native.Mathlib.Nat.{pow-suc, one-le-pow}
use flash_mq.Base.Bits.{bit_and-low, bit_and-halves, bit_or-halves}
use flash_mq.Base.{
  ℕ, zero, suc, ◌-◌, ◌*◌, ◌/◌, ◌%◌, ◌^◌, ◌≤◌, ◌<◌, ◌≡◌, refl, ap, ◌∙◌, min, max, ◌==◌,
  if◌then◌else◌, arith,
}

unfoldable pub bit_at : ℕ → ℕ → ℕ
bit_at w zero = w % 2
bit_at w (suc i) = bit_at (w / 2) i

pub bit_at-le : (w i : ℕ) → bit_at w i ≤ 1
unfolding bit_at
bit_at-le w zero = omega arith
bit_at-le w (suc i) = bit_at-le (w / 2) i

pub bit_at-zero : (i : ℕ) → bit_at 0 i ≡ 0
unfolding bit_at
bit_at-zero zero = refl
bit_at-zero (suc i) = bit_at-zero i

pub bit_at-bit_and : (a b i : ℕ) → bit_at (bit_and a b) i ≡ min (bit_at a i) (bit_at b i)
unfolding bit_at
bit_at-bit_and a b zero = omega (arith, bit_and-halves a b)
bit_at-bit_and a b (suc i) =
    let half : bit_and a b / 2 ≡ bit_and (a / 2) (b / 2) = omega (arith, bit_and-halves a b) in
    ap (λ w. bit_at w i) half ∙ bit_at-bit_and (a / 2) (b / 2) i

pub bit_at-bit_or : (a b i : ℕ) → bit_at (bit_or a b) i ≡ max (bit_at a i) (bit_at b i)
unfolding bit_at
bit_at-bit_or a b zero = omega (arith, bit_or-halves a b)
bit_at-bit_or a b (suc i) =
    let half : bit_or a b / 2 ≡ bit_or (a / 2) (b / 2) = omega (arith, bit_or-halves a b) in
    ap (λ w. bit_at w i) half ∙ bit_at-bit_or (a / 2) (b / 2) i

half_power : (i : ℕ) → (2 ^ suc i / 2 ≡ 2 ^ i) × (2 ^ suc i % 2 ≡ 0)
half_power i = omega (arith, pow-suc 2 i)

-- The bits of `1 << i`.
pub bit_at-power : (i j : ℕ) → bit_at (2 ^ i) j ≡ (if i == j then 1 else 0)
unfolding bit_at
bit_at-power zero zero = refl
bit_at-power zero (suc j) = bit_at-zero j ∙ ground arith
bit_at-power (suc i) zero = ground (arith, half_power i)
bit_at-power (suc i) (suc j) =
    ap (λ w. bit_at w j) (half_power i).0 ∙ bit_at-power i j ∙ ground arith

half_ones :
    (w i : ℕ)
    → 2 ^ i < 2 ^ w
    → ((2 ^ suc w - 1 - 2 ^ suc i) / 2 ≡ 2 ^ w - 1 - 2 ^ i) × ((2 ^ suc w - 1 - 2 ^ suc i) % 2 ≡ 1)
half_ones w i h = omega (arith, pow-suc 2 w, pow-suc 2 i)

bit_at-ones : (w j : ℕ) → j < w → bit_at (2 ^ w - 1) j ≡ 1
unfolding bit_at
bit_at-ones zero j h = absurd (omega arith)
bit_at-ones (suc w) zero h = omega (arith, pow-suc 2 w, one-le-pow w 2 (omega arith))
bit_at-ones (suc w) (suc j) h =
    let half : (2 ^ suc w - 1) / 2 ≡ 2 ^ w - 1 =
      omega (arith, pow-suc 2 w, one-le-pow w 2 (omega arith)) in
    ap (λ k. bit_at k j) half ∙ bit_at-ones w j (omega arith)

power-lt-power : (i w : ℕ) → i < w → 2 ^ i < 2 ^ w
power-lt-power i zero h = absurd (omega arith)
power-lt-power zero (suc w) h = omega (arith, pow-suc 2 w, one-le-pow w 2 (omega arith))
power-lt-power (suc i) (suc w) h =
    omega (arith, pow-suc 2 w, pow-suc 2 i, power-lt-power i w (omega arith))

-- The bits of `~(1 << i)` in a word of `w` bits.
pub bit_at-complement :
    (w i j : ℕ) → i < w → j < w → bit_at (2 ^ w - 1 - 2 ^ i) j ≡ (if i == j then 0 else 1)
unfolding bit_at
bit_at-complement zero i j h g = absurd (omega arith)
bit_at-complement (suc w) zero zero h g = omega (arith, pow-suc 2 w, one-le-pow w 2 (omega arith))
bit_at-complement (suc w) zero (suc j) h g =
    let half : (2 ^ suc w - 1 - 1) / 2 ≡ 2 ^ w - 1 =
      omega (arith, pow-suc 2 w, one-le-pow w 2 (omega arith)) in
    ap (λ k. bit_at k j) half ∙ bit_at-ones w j (omega arith) ∙ ground arith
bit_at-complement (suc w) (suc i) zero h g =
    ground (arith, half_ones w i (power-lt-power i w (omega arith)))
bit_at-complement (suc w) (suc i) (suc j) h g =
    ap (λ k. bit_at k j) (half_ones w i (power-lt-power i w (omega arith))).0
    ∙ bit_at-complement w i j (omega arith) (omega arith)
    ∙ ground arith

bit_and-power_zero : (w : ℕ) → bit_and w 0 ≡ 0
bit_and-power_zero w = bit_and-low 0 w ∙ omega arith

-- `w & (1 << i)` is not 0 exactly if the bit is set.
pub bit_and-power : (w i : ℕ) → bit_and w (2 ^ i) ≡ bit_at w i * 2 ^ i
unfolding bit_at
bit_and-power w zero = omega (arith, bit_and-halves w 1, bit_and-power_zero (w / 2))
bit_and-power w (suc i) = omega (
  arith,
  bit_and-halves w (2 ^ suc i),
  half_power i,
  ap (bit_and (w / 2)) (half_power i).0,
  bit_and-power (w / 2) i,
  ap (λ (t : ℕ). bit_at (w / 2) i * t) (pow-suc 2 i),
)
