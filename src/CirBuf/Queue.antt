-- ===== src/CirBuf/Queue.antt =====
-- cirbuf.cpp: the circular buffer as a queue of bytes.
use flash_mq.Base.{
  ℕ, ◌+◌, ◌%◌, ◌^◌, ◌≤◌, ◌<◌, ◌≡◌, ◌≢◌, refl, sym, ◌∙◌, ap, false, ltb, leb, ◌==◌, if◌then◌else◌,
  arith,
}
use flash_mq.Base.Result.{ok}
use flash_mq.CirBuf.{
  CirBuf, mask, used_bytes, free_space, advance_head, advance_tail, peak_ahead, store_at_head,
  put_byte,
}
use flash_mq.CirBuf.Bounds.{
  IsValid, room, mask_lem, ahead, wrapped, used_lem, free_lem, mod-wrapped, used_bytes-free_space,
}

-- A position in the memory, `n` bytes on from another.
place :
    (c : CirBuf) (v : IsValid c) (x n : ℕ)
    → x < c.size
    → n ≤ c.size
    → mask c ((x + n) % 2 ^ 32) ≡ wrapped c.size (x + n)
place c v x n h g =
    let (p, small) = room c v in
    let e : (x + n) % 2 ^ 32 ≡ x + n = omega arith in
    rw e (mask_lem c v (x + n) ∙ mod-wrapped c v (x + n) (omega arith))

moved :
    (size x n i : ℕ)
    → x < size
    → n + i < size
    → wrapped size (wrapped size (x + n) + i) ≡ wrapped size (x + (n + i))
moved size x n i h g = ground arith

apart : (size t i u : ℕ) → t < size → u < size → i < u → wrapped size (t + i) ≢ wrapped size (t + u)
apart size t i u h g l = ground arith

forward : (size t h : ℕ) → t < size → h < size → wrapped size (t + ahead size h t) ≡ h
forward size t h g l = ground arith

one_more :
    (size t h : ℕ)
    → t < size
    → h < size
    → 0 < ahead size t (h + 1)
    → ahead size (wrapped size (h + 1)) t ≡ ahead size h t + 1
one_more size t h g l p = ground arith

some_less :
    (size t h n : ℕ)
    → t < size
    → h < size
    → n ≤ ahead size h t
    → ahead size h (wrapped size (t + n)) + n ≡ ahead size h t
some_less size t h n g l p = ground arith

pub peak_lem :
    (c : CirBuf) (v : IsValid c) (i : ℕ)
    → i < used_bytes c
    → peak_ahead i c ≡ ok (c.buf (wrapped c.size (c.tail + i)))
unfolding peak_ahead
peak_lem c v i h =
    let (sum, _, _) = used_bytes-free_space c v in
    let e : mask c ((c.tail + i) % 2 ^ 32) ≡ wrapped c.size (c.tail + i) =
      place c v c.tail i v.tail (omega arith) in
    let f : leb (used_bytes c) i ≡ false = ground arith in rw (f, e) refl

abbrev moved_head : ℕ → ℕ → CirBuf → CirBuf
moved_head b n c = record c { buf = λ i. if i == c.head then b else c.buf i; head = n }

-- The buffer `c'` is `c` with the byte `b` behind those in use.
pub record Appended (b size : ℕ) (c c' : CirBuf) : Type 0 where
  pub valid : IsValid c'
  pub size_of : c'.size ≡ size
  pub one_more : used_bytes c' ≡ used_bytes c + 1
  pub last : peak_ahead (used_bytes c) c' ≡ ok b
  pub others : (i : ℕ) → i < used_bytes c → peak_ahead i c' ≡ peak_ahead i c

-- With room for it, `put_byte` puts a byte behind those in use, and nothing else changes.
pub put_byte-Appended :
    (b : ℕ) (c : CirBuf)
    → IsValid c
    → 0 < free_space c
    → (c' : CirBuf) × (put_byte b c ≡ ok c') × Appended b c.size c c'
unfolding put_byte store_at_head advance_head
put_byte-Appended b c v room_left =
    let (sum, _, _) = used_bytes-free_space c v in
    let (p, small) = room c v in
    let n = wrapped c.size (c.head + 1) in
    let c' = moved_head b n c in
    let e : mask c ((c.head + 1) % 2 ^ 32) ≡ n = place c v c.head 1 v.head (omega arith) in
    let v' : IsValid c' = record {
      power = v.power;
      size = v.size;
      small = v.small;
      tail = v.tail;
      head = ground (arith, v.head);
    } in
    let more : used_bytes c' ≡ used_bytes c + 1 =
      used_lem c' v'
      ∙ one_more c.size c.tail c.head v.tail v.head (omega (arith, free_lem c v))
      ∙ ap (λ (x : ℕ). x + 1) (sym (used_lem c v)) in
    let at_head : wrapped c.size (c.tail + used_bytes c) ≡ c.head =
      ap (λ (x : ℕ). wrapped c.size (c.tail + x)) (used_lem c v)
      ∙ forward c.size c.tail c.head v.tail v.head in
    let throws : ltb (free_space c) 1 ≡ false = ground arith in
    (
      c',
      rw (throws, e) refl,
      record {
        valid = v';
        size_of = refl;
        one_more = more;
        last =
            peak_lem c' v' (used_bytes c) (omega (arith, more)) ∙ ap ok (ground (arith, at_head));
        others = λ i h.
            peak_lem c' v' i (omega (arith, more))
            ∙ ap ok (
                ground
                  (arith, apart c.size c.tail i (used_bytes c) v.tail (omega arith) h, at_head))
            ∙ sym (peak_lem c v i h);
      },
    )

-- `advanceTail` takes bytes in use away from the front, and leaves the others in order.
pub advance_tail-Drops :
    (n : ℕ) (c : CirBuf)
    → IsValid c
    → n ≤ used_bytes c
    → (c' : CirBuf) × (advance_tail n c ≡ ok c')
      × IsValid c'
      × (used_bytes c' + n ≡ used_bytes c)
      × ((i : ℕ) → i < used_bytes c' → peak_ahead i c' ≡ peak_ahead (n + i) c)
unfolding advance_tail
advance_tail-Drops n c v enough =
    let (sum, _, _) = used_bytes-free_space c v in
    let (p, small) = room c v in
    let t = wrapped c.size (c.tail + n) in
    let c' : CirBuf = record c { tail = t } in
    let e : mask c ((c.tail + n) % 2 ^ 32) ≡ t = place c v c.tail n v.tail (omega arith) in
    let v' : IsValid c' = record {
      power = v.power;
      size = v.size;
      small = v.small;
      head = v.head;
      tail = ground (arith, v.tail);
    } in
    let less : used_bytes c' + n ≡ used_bytes c =
      ap (λ (x : ℕ). x + n) (used_lem c' v')
      ∙ some_less c.size c.tail c.head n v.tail v.head (omega (arith, used_lem c v))
      ∙ sym (used_lem c v) in
    (
      c',
      rw e (ground arith),
      v',
      less,
      λ i h.
          peak_lem c' v' i h
          ∙ ap (λ (x : ℕ). ok (c.buf x)) (moved c.size c.tail n i v.tail (omega (arith, less)))
          ∙ sym (peak_lem c v (n + i) (omega (arith, less))),
    )
