-- ===== src/Utf8/Chars.antt =====
-- utils.h: the rounds of `isValidUtf8Generic` in arithmetic.
use Prim.Native.Nat.{bit_and}
use native.Mathlib.Nat.{pow-suc, div-div-eq-div-mul}
use flash_mq.Base.Bits.{bit_and-low, bit_and-halves, check_below, check_below_sound}
use flash_mq.Base.{
  ℕ, zero, suc, ◌+◌, ◌-◌, ◌*◌, ◌/◌, ◌%◌, ◌^◌, ◌<◌, ◌≡◌, refl, sym, ap, ◌∙◌, Bool, true, false, not,
  ◌||◌, ◌&&◌, Option, none, some, ltb, leb, ◌==◌, if◌then◌else◌, arith, Bool-cases, inl, inr,
}
use flash_mq.Utf8.{Decoder, decoder, lead, follow, is_bad_long}

abbrev pub between : ℕ → ℕ → ℕ → Bool
between lo hi x = leb lo x && ltb x hi

-- The first byte says how many follow, and gives the high bits.
abbrev pub lead_value : ℕ → Option Decoder
lead_value x =
    if ltb x 128
    then some (decoder 0 x 1)
    else if between 192 224 x
    then some (decoder 1 ((x - 192) * 64) 2)
    else if between 224 240 x
    then some (decoder 2 ((x - 224) * 4096) 3)
    else if between 240 248 x
    then some (decoder 3 ((x - 240) * 262144) 4)
    else none

abbrev iff : Bool → Bool → Bool
iff a b = if a then b else not b

iff_eq : (a b : Bool) → iff a b ≡ true → a ≡ b
iff_eq true b h = sym h
iff_eq false true h = ground arith
iff_eq false false h = refl

module _ (f g : ℕ → Bool) where
  same_on_bytes : check_below 256 (λ b. iff (f b) (g b)) ≡ true → (b : ℕ) → b < 256 → f b ≡ g b
  same_on_bytes h b lt = iff_eq (f b) (g b) (check_below_sound 256 _ b h lt)

ascii : (b : ℕ) → b < 256 → (bit_and b 128 == 0) ≡ ltb b 128
unfolding check_below
ascii = same_on_bytes (λ b. bit_and b 128 == 0) (λ b. ltb b 128) refl

starts_two : (b : ℕ) → b < 256 → (bit_and b 224 == 192) ≡ between 192 224 b
unfolding check_below
starts_two = same_on_bytes (λ b. bit_and b 224 == 192) (between 192 224) refl

starts_three : (b : ℕ) → b < 256 → (bit_and b 240 == 224) ≡ between 224 240 b
unfolding check_below
starts_three = same_on_bytes (λ b. bit_and b 240 == 224) (between 224 240) refl

starts_four : (b : ℕ) → b < 256 → (bit_and b 248 == 240) ≡ between 240 248 b
unfolding check_below
starts_four = same_on_bytes (λ b. bit_and b 248 == 240) (between 240 248) refl

goes_on : (b : ℕ) → b < 256 → (bit_and b 192 == 128) ≡ between 128 192 b
unfolding check_below
goes_on = same_on_bytes (λ b. bit_and b 192 == 128) (between 128 192) refl

pub lead_lem : (x : ℕ) → x < 256 → lead x ≡ lead_value x
unfolding lead
lead_lem x h =
    rw
      (
        ascii x h,
        starts_two x h,
        starts_three x h,
        starts_four x h,
        bit_and-low 7 x,
        bit_and-low 5 x,
        bit_and-low 4 x,
        bit_and-low 3 x,
      )
      (ground arith)

-- A byte that goes on gives six bits; `unit` is what the lowest counts.
pub follow_lem :
    (x remain unit point total : ℕ)
    → x < 256
    → 2 ^ (6 * remain) ≡ unit
    → follow x (decoder (suc remain) point total)
      ≡ (if between 128 192 x then some (decoder remain (point + (x - 128) * unit) total) else none)
unfolding follow
follow_lem x remain unit point total h e =
    let six : between 128 192 x ≡ true → x % 64 ≡ x - 128 = λ b. ground arith in
    let less : suc remain - 1 ≡ remain = omega arith in
    elim (Bool-cases (between 128 192 x)) [
      | inl b ↦ rw (goes_on x h, bit_and-low 6 x, b, less, e, six b) refl
      | inr b ↦ rw (goes_on x h, b) refl
    ]

bit_and_double : (a n : ℕ) → bit_and a (2 * n) ≡ 2 * bit_and (a / 2) n
bit_and_double a n =
    let half : 2 * n / 2 ≡ n = omega arith in
    omega (arith, bit_and-halves a (2 * n), ap (bit_and (a / 2)) half)

bit_and-shifted : (k a m : ℕ) → bit_and a (m * 2 ^ k) ≡ bit_and (a / 2 ^ k) m * 2 ^ k
bit_and-shifted zero a m =
    let e : m * 1 ≡ m = omega arith in let d : a / 1 ≡ a = omega arith in rw (e, d) (omega arith)
bit_and-shifted (suc k) a m =
    let e : m * 2 ^ suc k ≡ 2 * (m * 2 ^ k) = omega (arith, ap (λ (t : ℕ). m * t) (pow-suc 2 k)) in
    let d : a / 2 / 2 ^ k ≡ a / 2 ^ suc k =
      div-div-eq-div-mul a 2 (2 ^ k) ∙ ap (λ (t : ℕ). a / t) (omega (arith, pow-suc 2 k)) in
    let w : bit_and (a / 2 ^ suc k) m * 2 ^ suc k ≡ 2 * (bit_and (a / 2 ^ suc k) m * 2 ^ k) =
      omega (arith, ap (λ (t : ℕ). bit_and (a / 2 ^ suc k) m * t) (pow-suc 2 k)) in
    rw (e, bit_and_double a (m * 2 ^ k), bit_and-shifted k (a / 2) m, d, w) refl

plane_lem : (c : ℕ) → c < 2097152 → bit_and c 2031616 / 2 ^ 16 ≡ c / 65536
plane_lem c h = omega (arith, bit_and-shifted 16 c 31, bit_and-low 5 (c / 65536))

-- Surrogates, and the code points that are no characters.
abbrev pub no_character : ℕ → Bool
no_character c =
    between 55296 57344 c || between 64976 65008 c || (leb (c / 65536) 16 && leb 65534 (c % 65536))

pub is_bad_long_lem : (c : ℕ) → c < 2097152 → is_bad_long c ≡ no_character c
unfolding is_bad_long
is_bad_long_lem c h = rw (plane_lem c h, bit_and-low 16 c) (ground arith)
