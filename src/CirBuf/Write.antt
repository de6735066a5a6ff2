-- ===== src/CirBuf/Write.antt =====
-- cirbuf.cpp: `write(b)`, which makes room for the byte.
use native.Mathlib.Nat.{pow-le-pow_right}
use flash_mq.Base.{
  ℕ, suc, ◌+◌, ◌-◌, ◌*◌, ◌%◌, ◌^◌, ◌≤◌, ◌<◌, ◌≡◌, refl, sym, ◌∙◌, ap, true, false, ltb, leb, ◌==◌,
  dec_lt, if◌then◌else◌, some, arith, Bool-cases, ◌⊎◌, inl, inr,
}
use flash_mq.Base.Result.{ok, err, ◌>>=◌}
use flash_mq.CirBuf.{
  too_big, CirBuf, used_bytes, free_space, peak_ahead, put_byte, put_after, mul_loop,
  double_capacity, ensure_free_space, write_byte,
}
use flash_mq.CirBuf.Bounds.{IsValid, room, used_bytes-free_space}
use flash_mq.CirBuf.Queue.{Appended, put_byte-Appended}
use flash_mq.CirBuf.Growth.{double_capacity-Keeps}

-- A full buffer is doubled.
mul_loop_full :
    (fuel size used : ℕ)
    → 0 < size
    → size ≤ 2 ^ 31
    → used + 1 ≡ size
    → mul_loop (suc (suc fuel)) 1 size used 1 4294967295 ≡ some 2
unfolding mul_loop
mul_loop_full fuel size used positive small full =
    let e : 1 * size % 2 ^ 64 ≡ size = omega arith in
    let f : ltb ((size + (2 ^ 64 - used - 1)) % 2 ^ 64) 1 ≡ true = ground arith in
    let g : ltb size 4294967295 ≡ true = ground arith in
    let h : 2 * size % 2 ^ 64 ≡ size + size = omega arith in
    let i : ltb (((size + size) + (2 ^ 64 - used - 1)) % 2 ^ 64) 1 ≡ false = ground arith in
    rw (e, f, g, h, i) refl

-- A power of two that cannot be doubled.
at_limit : (k : ℕ) → k ≤ 31 → 2 ^ 31 < 2 ^ k * 2 → 2 ^ k ≡ 2 ^ 31
at_limit k h g = elim (dec_lt k 31) [
  | yes less ↦
      let small : 2 ^ k ≤ 2 ^ 30 =
        pow-le-pow_right {n = 2} (omega arith) {i = k} {j = 30} (omega arith) in
      absurd (omega arith)
  | no limit ↦ let e : k ≡ 31 = omega arith in ap (λ (x : ℕ). 2 ^ x) e
]

ensure_free_space_room :
    (garbage : ℕ → ℕ) (c : CirBuf)
    → 0 < free_space c
    → ensure_free_space garbage 1 4294967295 c ≡ some (ok c)
unfolding ensure_free_space
ensure_free_space_room garbage c h =
    let e : leb 1 (free_space c) ≡ true = ground arith in rw (e) refl

ensure_free_space_full :
    (garbage : ℕ → ℕ) (c : CirBuf)
    → IsValid c
    → free_space c ≡ 0
    → ensure_free_space garbage 1 4294967295 c ≡ some (double_capacity garbage 2 c)
unfolding ensure_free_space
ensure_free_space_full garbage c v full =
    let (p, small) = room c v in
    let sum : used_bytes c + 1 ≡ c.size = omega (arith, (used_bytes-free_space c v).0) in
    let e : leb 1 (free_space c) ≡ false = ground arith in
    rw (e, mul_loop_full 63 c.size (used_bytes c) p small sum) refl

-- For a buffer whose size is a power of two up to 2 ^ 31, and where `realloc` does not fail, `write(b)`
-- puts a byte behind those in use and keeps those and their order: it leaves the size where there is
-- room for the byte, and doubles it where there is none. Only a full buffer of 2 ^ 31 bytes makes it
-- throw.
pub write_byte-Appended :
    (garbage : ℕ → ℕ) (b : ℕ) (c : CirBuf)
    → IsValid c
    → ((c.size ≡ 2 ^ 31) × (free_space c ≡ 0) × (write_byte garbage b c ≡ some (err too_big)))
      ⊎ ((c' : CirBuf) × (write_byte garbage b c ≡ some (ok c'))
          × Appended b (if free_space c == 0 then c.size * 2 else c.size) c c')
unfolding write_byte
write_byte-Appended garbage b c v = elim (Bool-cases (free_space c == 0)) [
  | inr some_room ↦
      let (c', e, a) = put_byte-Appended b c v (ground arith) in
      inr (
        c',
        ap (put_after b) (ensure_free_space_room garbage c (ground arith)) ∙ ap some e,
        rw (some_room) a,
      )
  | inl full ↦
      let none_free : free_space c ≡ 0 = ground arith in
      let w = ap (put_after b) (ensure_free_space_full garbage c v none_free) in
      elim (double_capacity-Keeps garbage 0 c v) [
        | inl (big, e) ↦
            let largest : c.size ≡ 2 ^ 31 =
              v.size ∙ at_limit v.power v.small (omega (arith, big, v.size)) in
            inl (largest, none_free, w ∙ ap (λ r. some (r >>= put_byte b)) e)
        | inr (d, e, dv, twice, same, kept) ↦
            let (p, _) = room c v in
            let sum = (used_bytes-free_space c v).0 in
            let sum' = (used_bytes-free_space d dv).0 in
            let (c', f, a) = put_byte-Appended b d dv (omega arith) in
            inr (
              c',
              w ∙ ap (λ r. some (r >>= put_byte b)) e ∙ ap some f,
              rw (full) (record {
                valid = a.valid;
                size_of = a.size_of ∙ twice;
                one_more = a.one_more ∙ ap (λ (x : ℕ). x + 1) same;
                last = ap (λ (x : ℕ). peak_ahead x c') (sym same) ∙ a.last;
                others = λ i h. a.others i (omega arith) ∙ kept i h;
              }),
            )
      ]
]
