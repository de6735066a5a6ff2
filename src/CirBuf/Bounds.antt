-- ===== src/CirBuf/Bounds.antt =====
-- cirbuf.cpp: the positions, the bytes in use and the room.
use native.Mathlib.Nat.{pow-suc}
use flash_mq.Base.{
  ℕ, zero, suc, ◌+◌, ◌-◌, ◌*◌, ◌%◌, ◌^◌, ◌≤◌, ◌<◌, ◌≡◌, refl, sym, ◌∙◌, ap, ltb, if◌then◌else◌,
  arith, dec_lt, min, ◌==◌, false,
}
use flash_mq.Base.Bits.{bit_and-low, mod_of_parts}
use flash_mq.CirBuf.{
  CirBuf, minus, ltb_int, mask, used_bytes, free_space, max_write_size, max_read_size,
}

product : (a m : ℕ) → 2 * a * m + 2 * a ≡ a * (2 * m + 1) + a
product a m = grind arith

halved : (n a b m : ℕ) → b ≡ 2 * a → n ≡ b * m + b → n ≡ a * (2 * m + 1) + a
halved n a b m e f = f ∙ ap (λ (x : ℕ). x * m + x) e ∙ product a m

-- The powers of two up to 2 ^ 31 divide 2 ^ 32.
divides_from :
    (j k : ℕ) → j + k ≡ 31 → (m : ℕ) × (2 ^ 32 ≡ 2 ^ k * m + 2 ^ k) × (2 ^ k ≤ 2 ^ 31) × (0 < 2 ^ k)
divides_from zero k e =
    let same : k ≡ 31 = omega arith in
    let f : 2 ^ k ≡ 2 ^ 31 = ap (λ (x : ℕ). 2 ^ x) same in
    (1, omega (arith, f), omega (arith, f), omega (arith, f))
divides_from (suc j) k e =
    let (m, f, g, p) = divides_from j (suc k) (omega arith) in
    (
      2 * m + 1,
      halved (2 ^ 32) (2 ^ k) (2 ^ suc k) m (omega (arith, pow-suc 2 k)) f,
      omega (arith, g, pow-suc 2 k),
      omega (arith, p, pow-suc 2 k),
    )

-- Two numbers that are no negative `int`, and one that is the least of them.
ltb_int_small : (a b : ℕ) → a < 2 ^ 31 → b < 2 ^ 31 → ltb_int a b ≡ ltb a b
unfolding ltb_int
ltb_int_small a b h g =
    let e : (a + 2 ^ 31) % 2 ^ 32 ≡ a + 2 ^ 31 = omega arith in
    let f : (b + 2 ^ 31) % 2 ^ 32 ≡ b + 2 ^ 31 = omega arith in rw (e, f) (ground arith)

ltb_int_least : (a : ℕ) → a < 2 ^ 31 → ltb_int a (2 ^ 31) ≡ false
unfolding ltb_int
ltb_int_least a h =
    let e : (a + 2 ^ 31) % 2 ^ 32 ≡ a + 2 ^ 31 = omega arith in rw (e) (ground arith)

read_cases :
    (used end : ℕ)
    → used < 2 ^ 31
    → end ≤ 2 ^ 31
    → (if ltb_int used end then used else end) ≡ (if end == 2 ^ 31 then 2 ^ 31 else min used end)
read_cases used end h g = elim (dec_lt end (2 ^ 31)) [
  | yes less ↦
      let e : (end == 2 ^ 31) ≡ false = ground arith in
      rw (e, ltb_int_small used end h less) (ground arith)
  | no limit ↦ let e : end ≡ 2 ^ 31 = omega arith in rw (e, ltb_int_least used h) refl
]

-- The size is a power of two, and the positions are inside.
pub record IsValid (c : CirBuf) : Type 0 where
  pub power : ℕ
  pub size : c.size ≡ 2 ^ power
  pub small : power ≤ 31
  pub head : c.head < c.size
  pub tail : c.tail < c.size

-- The distance from `t` forward to `h`.
abbrev pub ahead : ℕ → ℕ → ℕ → ℕ
ahead size h t = if ltb h t then h + size - t else h - t

-- A position, once around the end at most.
abbrev pub wrapped : ℕ → ℕ → ℕ
wrapped size x = if ltb x size then x else x - size

module _ (c : CirBuf) (v : IsValid c) where
  pub room : (0 < c.size) × (c.size ≤ 2 ^ 31)
  room =
      let (m, _, g, p) = divides_from (31 - v.power) v.power (omega (arith, v.small)) in
      (omega (arith, v.size), omega (arith, v.size))

  whole : (m : ℕ) × (2 ^ 32 ≡ c.size * m + c.size)
  whole =
      let (m, e, _, _) = divides_from (31 - v.power) v.power (omega (arith, v.small)) in
      (m, e ∙ ap (λ (s : ℕ). s * m + s) (sym v.size))

  pub mask_lem : (x : ℕ) → mask c x ≡ x % c.size
  unfolding mask
  mask_lem x =
      let e : minus c.size 1 ≡ 2 ^ v.power - 1 = omega (arith, room, v.size) in
      rw (e, v.size) (bit_and-low v.power x)

  distance : (h t : ℕ) → h < c.size → t ≤ c.size → minus h t % c.size ≡ ahead c.size h t
  distance h t l g =
      let (p, s) = room in
      let (m, e) = whole in
      elim (dec_lt h t) [
        | yes less ↦
            let f : minus h t ≡ c.size * m + (h + c.size - t) = omega arith in
            mod_of_parts (minus h t) c.size m (h + c.size - t) f (omega arith) ∙ ground arith
        | no more ↦
            let f : minus h t ≡ c.size * 0 + (h - t) = omega arith in
            mod_of_parts (minus h t) c.size 0 (h - t) f (omega arith) ∙ ground arith
      ]

  pub used_lem : used_bytes c ≡ ahead c.size c.head c.tail
  unfolding used_bytes
  used_lem = mask_lem (minus c.head c.tail) ∙ distance c.head c.tail v.head (omega (arith, v.tail))

  pub mod-wrapped : (x : ℕ) → x < c.size + c.size → x % c.size ≡ wrapped c.size x
  mod-wrapped x h = elim (dec_lt x c.size) [
    | yes less ↦ mod_of_parts x c.size 0 x (omega arith) less ∙ ground arith
    | no more ↦ mod_of_parts x c.size 1 (x - c.size) (omega arith) (omega arith) ∙ ground arith
  ]

  pub free_lem : free_space c ≡ ahead c.size c.tail (c.head + 1)
  unfolding free_space
  free_lem =
      let (p, small) = room in
      let e : (c.head + 1) % 2 ^ 32 ≡ c.head + 1 = omega (arith, v.head) in
      rw e (
        mask_lem (minus c.tail (c.head + 1))
        ∙ distance c.tail (c.head + 1) v.tail (omega (arith, v.head)))

  read_lem : mask c ((c.head + minus c.size c.tail) % 2 ^ 32) ≡ used_bytes c
  read_lem =
      let (p, small) = room in
      let e : (c.head + minus c.size c.tail) % 2 ^ 32 ≡ c.head + (c.size - c.tail) =
        omega (arith, v.head, v.tail) in
      rw e (
        mask_lem (c.head + (c.size - c.tail))
        ∙ mod-wrapped (c.head + (c.size - c.tail)) (omega (arith, v.head, v.tail))
        ∙ ground (arith, used_lem, v.head, v.tail))

  write_lem : mask c ((minus (minus c.size 1) c.head + c.tail) % 2 ^ 32) ≡ free_space c
  write_lem =
      let (p, small) = room in
      let e : (minus (minus c.size 1) c.head + c.tail) % 2 ^ 32 ≡ c.size - 1 - c.head + c.tail =
        omega (arith, v.head, v.tail) in
      rw e (
        mask_lem (c.size - 1 - c.head + c.tail)
        ∙ mod-wrapped (c.size - 1 - c.head + c.tail) (omega (arith, v.head, v.tail))
        ∙ ground (arith, free_lem, v.head, v.tail))

  -- For a size that is a power of two up to 2 ^ 31, the bytes in use and the room add up to one less
  -- than the size, and `maxReadSize` and `maxWriteSize` are what lies of them before the end of the
  -- memory, but for `maxReadSize` of a buffer of 2 ^ 31 bytes with the tail at 0, which is 2 ^ 31
  -- whatever is in use.
  pub used_bytes-free_space :
      (used_bytes c + free_space c + 1 ≡ c.size)
      × (max_read_size c
          ≡ (if c.size - c.tail == 2 ^ 31 then 2 ^ 31 else min (used_bytes c) (c.size - c.tail)))
      × (max_write_size c ≡ min (free_space c) (c.size - c.head))
  unfolding max_read_size max_write_size
  used_bytes-free_space =
      let (p, small) = room in
      let sum : used_bytes c + free_space c + 1 ≡ c.size =
        ground (arith, used_lem, free_lem, v.head, v.tail) in
      let e : minus c.size c.tail ≡ c.size - c.tail = omega (arith, v.tail) in
      let f : minus (minus c.size 1) c.head ≡ c.size - 1 - c.head = omega (arith, v.head) in
      let reads : max_read_size c
          ≡ (if c.size - c.tail == 2 ^ 31 then 2 ^ 31 else min (used_bytes c) (c.size - c.tail)) =
        rw (read_lem, e)
          (read_cases (used_bytes c) (c.size - c.tail) (omega arith) (omega arith)) in
      let int : ltb_int (c.size - 1 - c.head) (free_space c)
          ≡ ltb (c.size - 1 - c.head) (free_space c) =
        ltb_int_small (c.size - 1 - c.head) (free_space c) (omega arith) (omega arith) in
      let last : (c.size - 1 - c.head + 1) % 2 ^ 32 ≡ c.size - c.head = omega (arith, v.head) in
      (sum, reads, rw (write_lem, f, int, last) (ground arith))
