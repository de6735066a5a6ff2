-- ===== src/Base/Bits.antt =====
-- `&` with a mask of low bits, and `&`, `|` on bytes, as arithmetic.
use Prim.Native.Nat.{bit_and, bit_or, digits, bit_and-bitwise, bit_or-bitwise}
use native.Mathlib.Nat.{pow-suc, div-add-mod, mod-lt, one-le-pow}
use flash_mq.Base.{
  ℕ, zero, suc, ◌+◌, ◌-◌, ◌*◌, ◌/◌, ◌%◌, ◌^◌, ◌≤◌, ◌<◌, ◌≡◌, refl, ap, sym, min, max, Bool, true,
  ◌&&◌, ◌==◌, ==_iff, arith,
}

-- More fuel than digits changes nothing.
spare_fuel : (k a b : ℕ) → a ≤ k → digits (λ y. 0) min k a b ≡ digits (λ y. 0) min a a b
spare_fuel k a b h = go k a a b h (omega arith)
  where
    go : (k l a b : ℕ) → a ≤ k → a ≤ l → digits (λ y. 0) min k a b ≡ digits (λ y. 0) min l a b
    go zero zero a b h g = refl
    go zero (suc l) zero b h g = refl
    go (suc k) zero zero b h g = refl
    go zero (suc l) (suc a) b h g = absurd (omega arith)
    go (suc k) zero (suc a) b h g = absurd (omega arith)
    go (suc k) (suc l) zero b h g = refl
    go (suc k) (suc l) (suc a) b h g =
        omega (arith, go k l (suc a / 2) (b / 2) (omega arith) (omega arith))

-- The lowest bit, and the others.
pub bit_and-halves : (a b : ℕ) → bit_and a b ≡ 2 * bit_and (a / 2) (b / 2) + min (a % 2) (b % 2)
bit_and-halves zero b = omega (arith, bit_and-bitwise 0 b, bit_and-bitwise 0 (b / 2))
bit_and-halves (suc a) b = omega (
  arith,
  bit_and-bitwise (suc a) b,
  bit_and-bitwise (suc a / 2) (b / 2),
  spare_fuel a (suc a / 2) (b / 2) (omega arith),
)

nothing_and : (n a : ℕ) → a ≤ n → bit_and a 0 ≡ 0
nothing_and n zero h = refl
nothing_and zero (suc a) h = absurd (omega arith)
nothing_and (suc n) (suc a) h =
    omega (arith, bit_and-halves (suc a) 0, nothing_and n (suc a / 2) (omega arith))

pub mod_of_parts : (n m q r : ℕ) → n ≡ m * q + r → r < m → n % m ≡ r
mod_of_parts n m q r e h = grind arith

-- A mask of `k` ones keeps the remainder by `2 ^ k`.
pub bit_and-low : (k a : ℕ) → bit_and a (2 ^ k - 1) ≡ a % 2 ^ k
bit_and-low zero a = omega (arith, nothing_and a a (omega arith))
bit_and-low (suc k) a =
    let m : ℕ = 2 ^ k in
    let q : ℕ = a / 2 / m in
    let h : 0 < m = one-le-pow k 2 (omega arith) in
    let e : (2 ^ suc k - 1) / 2 ≡ m - 1 = omega (arith, pow-suc 2 k) in
    let v : bit_and a (2 ^ suc k - 1) ≡ 2 * (a / 2 % m) + a % 2 = omega (
      arith,
      pow-suc 2 k,
      bit_and-halves a (2 ^ suc k - 1),
      ap (bit_and (a / 2)) e,
      bit_and-low k (a / 2),
    ) in
    let w : 2 ^ suc k * q ≡ 2 * (m * q) = omega (arith, ap (λ (t : ℕ). t * q) (pow-suc 2 k)) in
    sym (
      mod_of_parts a (2 ^ suc k) q (bit_and a (2 ^ suc k - 1))
        (omega (arith, v, w, div-add-mod (a / 2) m))
        (omega (arith, v, pow-suc 2 k, mod-lt (a / 2) h)))

-- To prove a property of all bytes by checking each.
unfoldable pub check_below : ℕ → (ℕ → Bool) → Bool
check_below zero p = true
check_below (suc n) p = p n && check_below n p

pub check_below_sound : (n : ℕ) (p : ℕ → Bool) (x : ℕ) → check_below n p ≡ true → x < n → p x ≡ true
unfolding check_below
check_below_sound zero p x h lt = absurd (omega arith)
check_below_sound (suc n) p x h lt = ground (arith, check_below_sound n p x)

byte_and_127 : check_below 256 (λ b. bit_and b 127 == b % 128) ≡ true
unfolding check_below
byte_and_127 = refl

byte_and_128 : check_below 256 (λ b. bit_and b 128 == b / 128 * 128) ≡ true
unfolding check_below
byte_and_128 = refl

byte_or_128 : check_below 128 (λ b. bit_or b 128 == b + 128) ≡ true
unfolding check_below
byte_or_128 = refl

pub bit_and-127 : (b : ℕ) → b < 256 → bit_and b 127 ≡ b % 128
bit_and-127 b h = (==_iff _ _).0 (check_below_sound 256 _ b byte_and_127 h)

pub bit_and-128 : (b : ℕ) → b < 256 → bit_and b 128 ≡ b / 128 * 128
bit_and-128 b h = (==_iff _ _).0 (check_below_sound 256 _ b byte_and_128 h)

pub bit_or-128 : (b : ℕ) → b < 128 → bit_or b 128 ≡ b + 128
bit_or-128 b h = (==_iff _ _).0 (check_below_sound 128 _ b byte_or_128 h)

spare_fuel_or :
    (k l a b : ℕ) → a ≤ k → a ≤ l → digits (λ y. y) max k a b ≡ digits (λ y. y) max l a b
spare_fuel_or zero zero a b h g = refl
spare_fuel_or zero (suc l) zero b h g = refl
spare_fuel_or (suc k) zero zero b h g = refl
spare_fuel_or zero (suc l) (suc a) b h g = absurd (omega arith)
spare_fuel_or (suc k) zero (suc a) b h g = absurd (omega arith)
spare_fuel_or (suc k) (suc l) zero b h g = refl
spare_fuel_or (suc k) (suc l) (suc a) b h g =
    omega (arith, spare_fuel_or k l (suc a / 2) (b / 2) (omega arith) (omega arith))

pub bit_or-halves : (a b : ℕ) → bit_or a b ≡ 2 * bit_or (a / 2) (b / 2) + max (a % 2) (b % 2)
bit_or-halves zero b = omega (arith, bit_or-bitwise 0 b, bit_or-bitwise 0 (b / 2))
bit_or-halves (suc a) b = omega (
  arith,
  bit_or-bitwise (suc a) b,
  bit_or-bitwise (suc a / 2) (b / 2),
  spare_fuel_or a (suc a / 2) (suc a / 2) (b / 2) (omega arith) (omega arith),
)

or_nothing : (n a : ℕ) → a ≤ n → bit_or a 0 ≡ a
or_nothing n zero h = refl
or_nothing zero (suc a) h = absurd (omega arith)
or_nothing (suc n) (suc a) h =
    omega (arith, bit_or-halves (suc a) 0, or_nothing n (suc a / 2) (omega arith))

-- A shifted number and one that fits the room below it do not overlap.
pub bit_or-shifted : (k q r : ℕ) → r < 2 ^ k → bit_or (q * 2 ^ k) r ≡ q * 2 ^ k + r
bit_or-shifted zero q r h = ground (arith, or_nothing q q)
bit_or-shifted (suc k) q r h =
    let e : q * 2 ^ suc k ≡ 2 * (q * 2 ^ k) = omega (arith, ap (λ (t : ℕ). q * t) (pow-suc 2 k)) in
    ground (
      arith,
      e,
      pow-suc 2 k,
      bit_or-halves (q * 2 ^ suc k) r,
      bit_or-shifted k q (r / 2) (omega (arith, pow-suc 2 k)),
    )
