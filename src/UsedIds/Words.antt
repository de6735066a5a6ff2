-- ===== src/UsedIds/Words.antt =====
-- The bit set: reading, marking and freeing one id, and the count of the ids in use.
use Prim.Native.Nat.{bit_and, bit_or}
use native.Mathlib.Nat.{one-le-pow}
use flash_mq.Base.BitAt.{
  bit_at, bit_at-le, bit_at-zero, bit_at-bit_and, bit_at-bit_or, bit_at-power, bit_at-complement,
  bit_and-power,
}
use flash_mq.Base.Count.{
  sum_below, sum_below-same, sum_below-differ, sum_below-zero, sum_below-vanish,
}
use flash_mq.Base.{
  ℕ, zero, suc, ◌-◌, ◌*◌, ◌/◌, ◌%◌, ◌^◌, ◌≤◌, ◌<◌, ◌≡◌, refl, sym, ◌∙◌, ap, List, [], ◌∷◌, length,
  length-set, get_or, set, replicate, ◌==◌, if◌then◌else◌, arith,
}
use flash_mq.UsedIds.{num_values, words, bit_mask, bits_is_used, bits_mark_used, bits_mark_free}

-- The bit of an id: 1 if it is in use.
pub bit_of : List ℕ → ℕ → ℕ
bit_of ws id = bit_at (get_or ws (id / 64) 0) (id % 64)

pub bit_of-le : (ws : List ℕ) (id : ℕ) → bit_of ws id ≤ 1
unfolding bit_of
bit_of-le ws id = bit_at-le _ _

get_or-set :
    (ws : List ℕ) (k l v : ℕ)
    → k < length ws
    → get_or (set ws k v) l 0 ≡ (if k == l then v else get_or ws l 0)
get_or-set [] k l v h = absurd (omega arith)
get_or-set (w ∷ ws) zero zero v h = refl
get_or-set (w ∷ ws) zero (suc l) v h = ground arith
get_or-set (w ∷ ws) (suc k) zero v h = ground arith
get_or-set (w ∷ ws) (suc k) (suc l) v h = get_or-set ws k l v (omega arith) ∙ ground arith

masked : (b m : ℕ) → b ≤ 1 → 0 < m → (b * m == 0) ≡ (b == 0)
masked zero m h g = ground arith
masked (suc zero) m h g = ground arith
masked (suc (suc b)) m h g = absurd (omega arith)

tested :
    (ws : List ℕ) (id : ℕ)
    → (bit_and (get_or ws (id / 64) 0) (bit_mask id) == 0) ≡ (bit_of ws id == 0)
unfolding bit_of
tested ws id =
    let w = get_or ws (id / 64) 0 in
    ap (λ k. k == 0) (bit_and-power w (id % 64))
    ∙ masked (bit_at w (id % 64)) (2 ^ (id % 64)) (bit_at-le w (id % 64))
        (one-le-pow (id % 64) 2 (omega arith))

pub bits_is_used-bit_of : (ws : List ℕ) (id : ℕ) → bits_is_used ws id ≡ (bit_of ws id == 1)
unfolding bits_is_used
bits_is_used-bit_of ws id = rw (tested ws id) (ground (arith, bit_of-le ws id))

-- The bits after the word of `id` was given new contents `v`, whose bit at `id` is `b`.
bit_of-set :
    (ws : List ℕ) (id j v b : ℕ)
    → id / 64 < length ws
    → ((i : ℕ)
        → i < 64
        → bit_at v i ≡ (if id % 64 == i then b else bit_at (get_or ws (id / 64) 0) i))
    → bit_of (set ws (id / 64) v) j ≡ (if id == j then b else bit_of ws j)
unfolding bit_of
bit_of-set ws id j v b h g = rw (get_or-set ws (id / 64) (j / 64) v h) (
    ground (
      arith,
      g (j % 64) (omega arith),
      λ (e : id / 64 ≡ j / 64). ap (λ k. bit_at (get_or ws k 0) (j % 64)) e,
    ))

-- What marking or freeing does to a bit set with its count.
pub record Sets (b id : ℕ) (before after : List ℕ × ℕ) : Type 0 where
  pub size : length after.0 ≡ words
  pub reads : (j : ℕ) → bit_of after.0 j ≡ (if id == j then b else bit_of before.0 j)
  pub count : after.1 ≡ sum_below num_values (bit_of after.0)

module _ (ws : List ℕ) (used id : ℕ) (size : length ws ≡ words) (small : id < num_values)
    (count : used ≡ sum_below num_values (bit_of ws)) where
  in_word : id / 64 < length ws
  in_word = omega arith

  pub bits_mark_used-Sets : Sets 1 id (ws, used) (bits_mark_used id (ws, used))
  unfolding bits_mark_used
  bits_mark_used-Sets =
      let w = get_or ws (id / 64) 0 in
      let v = bit_or w (bit_mask id) in
      let reads = λ (j : ℕ). bit_of-set ws id j v 1 in_word (λ i l.
        ground (arith, bit_at-bit_or w (bit_mask id) i, bit_at-power (id % 64) i, bit_at-le w i)) in
      let differ =
        sum_below-differ (bit_of ws) (bit_of (set ws (id / 64) v)) num_values id small
          (λ j l ne. ground (arith, reads j)) in
      record {
        size = length-set ws (id / 64) v ∙ size;
        reads = reads;
        count = rw (tested ws id) (ground (arith, bit_of-le ws id, reads id));
      }

  pub bits_mark_free-Sets : Sets 0 id (ws, used) (bits_mark_free id (ws, used))
  unfolding bits_mark_free
  bits_mark_free-Sets =
      let w = get_or ws (id / 64) 0 in
      let v = bit_and w (2 ^ 64 - 1 - bit_mask id) in
      let reads = λ (j : ℕ). bit_of-set ws id j v 0 in_word (λ i l. ground (
        arith,
        bit_at-bit_and w (2 ^ 64 - 1 - bit_mask id) i,
        bit_at-complement 64 (id % 64) i (omega arith) l,
        bit_at-le w i,
      )) in
      let differ =
        sum_below-differ (bit_of ws) (bit_of (set ws (id / 64) v)) num_values id small
          (λ j l ne. ground (arith, reads j)) in
      record {
        size = length-set ws (id / 64) v ∙ size;
        reads = reads;
        count = rw (tested ws id) (ground (arith, bit_of-le ws id, reads id));
      }

get_or-replicate : (n i : ℕ) → get_or {A = ℕ} (replicate n 0) i 0 ≡ 0
unfolding replicate
get_or-replicate zero i = refl
get_or-replicate (suc n) zero = refl
get_or-replicate (suc n) (suc i) = get_or-replicate n i

pub bit_of-fresh : (j : ℕ) → bit_of (replicate words 0) j ≡ 0
unfolding bit_of
bit_of-fresh j = rw (get_or-replicate words (j / 64)) (bit_at-zero (j % 64))

pub count-fresh : 0 ≡ sum_below num_values (bit_of (replicate words 0))
count-fresh = sym (
    sum_below-same (bit_of (replicate words 0)) (λ _. 0) num_values (λ j _. bit_of-fresh j)
    ∙ sum_below-zero num_values)

-- A count of 0 means that no id is in use.
pub count-vanish :
    (ws : List ℕ) (j : ℕ) → sum_below num_values (bit_of ws) ≡ 0 → j < num_values → bit_of ws j ≡ 0
count-vanish ws j h l = sum_below-vanish num_values (bit_of ws) j h l
