-- ===== src/CirBuf/Growth.antt =====
-- cirbuf.cpp: `doubleCapacity`.
use native.Mathlib.Nat.{one-le-pow, pow-suc, pow-le-pow_right}
use flash_mq.Base.{
  ℕ, zero, suc, ◌+◌, ◌*◌, ◌%◌, ◌^◌, ◌≤◌, ◌<◌, ◌≡◌, refl, sym, ◌∙◌, ap, true, false, ltb, ◌==◌,
  dec_lt, if◌then◌else◌, arith, Bool-cases, ◌⊎◌, inl, inr,
}
use flash_mq.Base.Result.{ok, err}
use flash_mq.CirBuf.{
  too_big, CirBuf, used_bytes, max_read_size, peak_ahead, realloc, copy_up, double_capacity,
}
use flash_mq.CirBuf.Bounds.{IsValid, room, ahead, wrapped, used_lem, used_bytes-free_space}
use flash_mq.CirBuf.Queue.{peak_lem}

-- The memory after growing, at the position `i` bytes on from `t`, which no longer wraps.
grown :
    (garbage buf : ℕ → ℕ) (size t h i : ℕ)
    → t < size
    → h < size
    → i < ahead size h t
    → (if ltb h t then copy_up size h (realloc garbage size buf) else realloc garbage size buf)
        (t + i)
      ≡ buf (wrapped size (t + i))
grown garbage buf size t h i l g p = elim (Bool-cases (ltb h t)) [
  | inl around ↦ rw around (ground (arith, around))
  | inr straight ↦ rw straight (ground (arith, straight))
]

pow-plus : (k j : ℕ) → 2 ^ (k + j) ≡ 2 ^ k * 2 ^ j
pow-plus k zero = let e : k + 0 ≡ k = omega arith in ap (λ (x : ℕ). 2 ^ x) e ∙ omega arith
pow-plus k (suc j) =
    let e : k + suc j ≡ suc (k + j) = omega arith in
    ap (λ (x : ℕ). 2 ^ x) e ∙ pow-suc 2 (k + j) ∙ grind (arith, pow-plus k j, pow-suc 2 j)

-- A power of two that is at most 2 ^ 31.
small_power : (k : ℕ) → 2 ^ k ≤ 2 ^ 31 → k ≤ 31
small_power k h = elim (dec_lt 31 k) [
  | yes big ↦
      let more : 2 ^ 32 ≤ 2 ^ k =
        pow-le-pow_right {n = 2} (omega arith) {i = 32} {j = k} (omega arith) in
      absurd (omega arith)
  | no small ↦ omega arith
]

-- The new size is at least twice the old one.
twice : (size k j : ℕ) → size ≡ 2 ^ k → size + size ≤ size * 2 ^ suc j
twice size k j e =
    let half : 1 ≤ 2 ^ j = one-le-pow j 2 (omega arith) in grind (arith, half, pow-suc 2 j)

unwrapped : (size x : ℕ) → x < size → wrapped size x ≡ x
unwrapped size x h = ground arith

-- Where the bytes before `head` go: right behind the old memory.
same_place :
    (garbage buf : ℕ → ℕ) (size t h at : ℕ)
    → (ltb h t ≡ true → at ≡ size)
    → (if ltb h t then copy_up at h (realloc garbage size buf) else realloc garbage size buf)
      ≡ (if ltb h t then copy_up size h (realloc garbage size buf) else realloc garbage size buf)
same_place garbage buf size t h at e = elim (Bool-cases (ltb h t)) [
  | inl around ↦ rw around (ap (λ (x : ℕ). copy_up x h (realloc garbage size buf)) (e around))
  | inr straight ↦ rw straight refl
]

-- `doubleCapacity` by a power of two keeps the bytes in use and their order, up to 2 ^ 31; beyond,
-- it throws.
pub double_capacity-Keeps :
    (garbage : ℕ → ℕ) (j : ℕ) (c : CirBuf)
    → IsValid c
    → ((2 ^ 31 < c.size * 2 ^ suc j) × (double_capacity garbage (2 ^ suc j) c ≡ err too_big))
      ⊎ ((c' : CirBuf) × (double_capacity garbage (2 ^ suc j) c ≡ ok c')
          × IsValid c'
          × (c'.size ≡ c.size * 2 ^ suc j)
          × (used_bytes c' ≡ used_bytes c)
          × ((i : ℕ) → i < used_bytes c → peak_ahead i c' ≡ peak_ahead i c))
unfolding double_capacity
double_capacity-Keeps garbage j c v = elim (dec_lt (2 ^ 31) (c.size * 2 ^ suc j)) [
  | yes big ↦
      let not_one : (2 ^ suc j == 1) ≡ false =
        ground (arith, one-le-pow j 2 (omega arith), pow-suc 2 j) in
      let too : ltb (2 ^ 31) (c.size * 2 ^ suc j) ≡ true = ground arith in
      inl (big, rw (not_one, too) refl)
  | no fits ↦
      let (sum, reads, _) = used_bytes-free_space c v in
      let (p, small) = room c v in
      let double : c.size + c.size ≤ c.size * 2 ^ suc j = twice c.size v.power j v.size in
      let not_one : (2 ^ suc j == 1) ≡ false =
        ground (arith, one-le-pow j 2 (omega arith), pow-suc 2 j) in
      let not_too : ltb (2 ^ 31) (c.size * 2 ^ suc j) ≡ false = ground arith in
      let head_fits : (c.tail + used_bytes c) % 2 ^ 32 ≡ c.tail + used_bytes c =
        omega (arith, v.tail) in
      let size_fits : c.size * 2 ^ suc j % 2 ^ 32 ≡ c.size * 2 ^ suc j = omega arith in
      let buf =
        if ltb c.head c.tail
        then copy_up c.size c.head (realloc garbage c.size c.buf)
        else realloc garbage c.size c.buf in
      let at_end : (ltb c.head c.tail ≡ true → c.tail + max_read_size c ≡ c.size) =
        λ around. ground (arith, reads, used_lem c v, v.head, v.tail) in
      let moved = same_place garbage c.buf c.size c.tail c.head (c.tail + max_read_size c) at_end in
      let c' : CirBuf = record {
        buf = buf;
        head = c.tail + used_bytes c;
        tail = c.tail;
        size = c.size * 2 ^ suc j;
        primed_for_size_reset = false;
      } in
      let power_of : c.size * 2 ^ suc j ≡ 2 ^ (v.power + suc j) =
        ap (λ (x : ℕ). x * 2 ^ suc j) v.size ∙ sym (pow-plus v.power (suc j)) in
      let v' : IsValid c' = record {
        power = v.power + suc j;
        size = power_of;
        small = small_power (v.power + suc j) (omega (arith, power_of));
        head = omega (arith, v.tail);
        tail = omega (arith, v.tail);
      } in
      let same_used : used_bytes c' ≡ used_bytes c = used_lem c' v' ∙ ground (arith, v.tail) in
      inr (
        c',
        rw (not_one, not_too, moved, head_fits, size_fits) refl,
        v',
        refl,
        same_used,
        λ i h.
            peak_lem c' v' i (omega (arith, same_used))
            ∙ ap (λ (x : ℕ). ok (buf x))
                (unwrapped (c.size * 2 ^ suc j) (c.tail + i) (omega (arith, v.tail)))
            ∙ ap ok (
                grown garbage c.buf c.size c.tail c.head i v.tail v.head
                  (omega (arith, used_lem c v)))
            ∙ sym (peak_lem c v i h),
      )
]
