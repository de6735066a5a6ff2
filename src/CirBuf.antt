-- ===== src/CirBuf.antt =====
-- cirbuf.cpp: the circular buffer of bytes.
pub mod Bounds
pub mod Queue
pub mod Growth
pub mod Write
use Prim.Native.Nat.{bit_and}
use flash_mq.Base.{
  ℕ, zero, suc, ◌+◌, ◌-◌, ◌*◌, ◌%◌, ◌^◌, ◌&&◌, Bool, true, false, not, min, Option, none, some, ltb,
  leb, ◌==◌, if◌then◌else◌,
}
use flash_mq.Base.Result.{Result, ok, err, ◌>>=◌}

-- The exceptions of `advanceHead`, `advanceTail`, `peakAhead` and `doubleCapacity`.
pub data Error : Type 0 where
  head_too_far tail_too_far peek_too_far too_big : Error

-- `buf` is the memory behind the pointer; `head`, `tail` and `size` are `uint32_t`.
pub record CirBuf : Type 0 where
  pub buf : ℕ → ℕ
  pub head : ℕ
  pub tail : ℕ
  pub size : ℕ
  pub primed_for_size_reset : Bool

-- The difference of two `uint32_t`.
abbrev pub minus : ℕ → ℕ → ℕ
minus a b = (a + (2 ^ 32 - b)) % 2 ^ 32

-- The comparison `a < b` of two `int`s, whose 32 bits these are.
unfoldable pub ltb_int : ℕ → ℕ → Bool
ltb_int a b = ltb ((a + 2 ^ 31) % 2 ^ 32) ((b + 2 ^ 31) % 2 ^ 32)

-- `x & (size-1)`
unfoldable pub mask : CirBuf → ℕ → ℕ
mask c x = bit_and x (minus c.size 1)

unfoldable pub used_bytes : CirBuf → ℕ
unfolding mask
used_bytes c = mask c (minus c.head c.tail)

unfoldable pub free_space : CirBuf → ℕ
unfolding mask
free_space c = mask c (minus c.tail ((c.head + 1) % 2 ^ 32))

unfoldable pub max_write_size : CirBuf → ℕ
unfolding mask ltb_int
max_write_size c =
    let end = minus (minus c.size 1) c.head in
    let n = mask c ((end + c.tail) % 2 ^ 32) in
    if not (ltb_int end n) then n else (end + 1) % 2 ^ 32

unfoldable pub max_read_size : CirBuf → ℕ
unfolding mask ltb_int
max_read_size c =
    let end = minus c.size c.tail in
    let n = mask c ((c.head + end) % 2 ^ 32) in if ltb_int n end then n else end

unfoldable pub advance_head : ℕ → CirBuf → Result Error CirBuf
unfolding free_space mask
advance_head n c =
    if ltb (free_space c) n
    then err head_too_far
    else ok (record c { head = mask c ((c.head + n) % 2 ^ 32) })

unfoldable pub advance_tail : ℕ → CirBuf → Result Error CirBuf
unfolding used_bytes mask
advance_tail n c =
    if ltb (used_bytes c) n
    then err tail_too_far
    else ok (record c { tail = mask c ((c.tail + n) % 2 ^ 32) })

unfoldable pub peak_ahead : ℕ → CirBuf → Result Error ℕ
unfolding used_bytes mask
peak_ahead offset c =
    if leb (used_bytes c) offset
    then err peek_too_far
    else ok (c.buf (mask c ((c.tail + offset) % 2 ^ 32)))

-- `buf[head] = b`
unfoldable pub store_at_head : ℕ → CirBuf → CirBuf
store_at_head b c = record c { buf = λ i. if i == c.head then b else c.buf i }

-- `write(b)` behind its call of `ensureFreeSpace`.
unfoldable pub put_byte : ℕ → CirBuf → Result Error CirBuf
unfolding store_at_head advance_head
put_byte b c = advance_head 1 (store_at_head b c)

unfoldable pub reset_positions : CirBuf → CirBuf
reset_positions c = record c { head = 0; tail = 0 }

-- What `realloc` gives: the old bytes, and whatever is in the memory behind them.
abbrev pub realloc : (ℕ → ℕ) → ℕ → (ℕ → ℕ) → ℕ → ℕ
realloc garbage size buf i = if ltb i size then buf i else garbage i

-- `memcpy(&buf[to], buf, n)`
abbrev pub copy_up : ℕ → ℕ → (ℕ → ℕ) → ℕ → ℕ
copy_up to n buf i = if leb to i && ltb i (to + n) then buf (i - to) else buf i

-- `doubleCapacity(factor)`, where `realloc` succeeds.
unfoldable pub double_capacity : (ℕ → ℕ) → ℕ → CirBuf → Result Error CirBuf
unfolding used_bytes max_read_size
double_capacity garbage factor c =
    if factor == 1
    then ok c
    else if ltb (2 ^ 31) (c.size * factor)
    then err too_big
    else (let buf = realloc garbage c.size c.buf in
        ok (record {
          buf = if ltb c.head c.tail then copy_up (c.tail + max_read_size c) c.head buf else buf;
          head = (c.tail + used_bytes c) % 2 ^ 32;
          tail = c.tail;
          size = (c.size * factor) % 2 ^ 32;
          primed_for_size_reset = false;
        }))

-- The loop of `ensureFreeSpace`, in `size_t`; `mul` is 0 after 64 rounds. `none` is a loop that has
-- not ended by then.
unfoldable pub mul_loop : ℕ → ℕ → ℕ → ℕ → ℕ → ℕ → Option ℕ
mul_loop zero mul size used n max = none
mul_loop (suc fuel) mul size used n max =
    let rest = mul_loop fuel (mul * 2 % 2 ^ 64) size used n max in
    let product = mul * size % 2 ^ 64 in
    let short = ltb ((product + (2 ^ 64 - used - 1)) % 2 ^ 64) n in
    if short && ltb product max then rest else some mul

abbrev pub grow : (ℕ → ℕ) → CirBuf → Option ℕ → Option (Result Error CirBuf)
grow garbage c none = none
grow garbage c (some mul) = some (double_capacity garbage (mul % 2 ^ 32) c)

unfoldable pub ensure_free_space : (ℕ → ℕ) → ℕ → ℕ → CirBuf → Option (Result Error CirBuf)
ensure_free_space garbage n max c =
    if leb n (free_space c)
    then some (ok c)
    else grow garbage c (mul_loop 65 1 c.size (used_bytes c) n max)

-- `write(b)`; `max` of `ensureFreeSpace` is `UINT_MAX` where it is not given. `none` is its loop that
-- does not end.
abbrev pub put_after : ℕ → Option (Result Error CirBuf) → Option (Result Error CirBuf)
put_after b none = none
put_after b (some r) = some (r >>= put_byte b)

unfoldable pub write_byte : (ℕ → ℕ) → ℕ → CirBuf → Option (Result Error CirBuf)
write_byte garbage b c = put_after b (ensure_free_space garbage 1 4294967295 c)

unfoldable pub reset_capacity : (ℕ → ℕ) → ℕ → CirBuf → CirBuf
reset_capacity garbage new_size c =
    if c.size == new_size then record c { primed_for_size_reset = false } else record {
      buf = realloc garbage (min c.size new_size) c.buf;
      head = 0;
      tail = 0;
      size = new_size % 2 ^ 32;
      primed_for_size_reset = false;
    }

unfoldable pub reset_capacity_if_eligable : (ℕ → ℕ) → ℕ → CirBuf → CirBuf
unfolding used_bytes reset_capacity
reset_capacity_if_eligable garbage size c =
    if not c.primed_for_size_reset
    then record c { primed_for_size_reset = true }
    else if ltb 0 (used_bytes c)
    then c
    else reset_capacity garbage size c
