-- ===== src/Utf8.antt =====
-- utils.h: `isValidUtf8Generic`, which says what a text in a packet may hold.
pub mod Chars
pub mod Rounds
pub mod Decode
pub mod Encode
use Prim.Native.Nat.{bit_and}
use flash_mq.Base.{
  ℕ, zero, suc, ◌+◌, ◌-◌, ◌*◌, ◌/◌, ◌^◌, Bool, true, false, not, ◌||◌, ◌&&◌, Option, none, some, [],
  ◌∷◌, ltb, leb, ◌==◌, if◌then◌else◌,
}
use flash_mq.Base.Text.{Text}

-- The locals of the loop.
pub record Decoder : Type 0 where
  pub multibyte_remain : ℕ
  pub cur_code_point : ℕ
  pub total_char_len : ℕ

abbrev pub decoder : ℕ → ℕ → ℕ → Decoder
decoder remain point total = record {
  multibyte_remain = remain;
  cur_code_point = point;
  total_char_len = total;
}

-- The byte that starts a code point.
unfoldable pub lead : ℕ → Option Decoder
lead x =
    if bit_and x 128 == 0
    then some (decoder 0 (bit_and x 127) 1)
    else if bit_and x 224 == 192
    then some (decoder 1 (bit_and x 31 * 2 ^ 6) 2)
    else if bit_and x 240 == 224
    then some (decoder 2 (bit_and x 15 * 2 ^ 12) 3)
    else if bit_and x 248 == 240
    then some (decoder 3 (bit_and x 7 * 2 ^ 18) 4)
    else if not (bit_and x 128 == 0)
    then none
    else some (decoder 0 (bit_and x 127) 1)

-- A byte that goes on with one.
unfoldable pub follow : ℕ → Decoder → Option Decoder
follow x d =
    if not (bit_and x 192 == 128)
    then none
    else let remain = d.multibyte_remain - 1 in
      some (decoder remain (d.cur_code_point + bit_and x 63 * 2 ^ (6 * remain)) d.total_char_len)

-- The tests on a code point that is complete.
unfoldable pub is_overlong : ℕ → ℕ → Bool
is_overlong total point =
    if total == 1
    then false
    else (total == 2 && ltb point 128)
      || (total == 3 && ltb point 2048)
      || (total == 4 && ltb point 65536)

unfoldable pub is_bad_long : ℕ → Bool
is_bad_long point =
    let plane = bit_and point 2031616 / 2 ^ 16 in
    let last_16_bit = bit_and point 65535 in
    (leb 55296 point && leb point 57343)
    || (leb 64976 point && leb point 65007)
    || (leb plane 16 && (last_16_bit == 65534 || last_16_bit == 65535))

unfoldable pub is_bad_point : ℕ → ℕ → Bool
unfolding is_overlong is_bad_long
is_bad_point total point =
    is_overlong total point
    || leb point 31
    || (leb 127 point && leb point 159)
    || (ltb 1 total && is_bad_long point)

-- What the end of the round does.
abbrev pub complete : Option Decoder → Option Decoder
complete none = none
complete (some d) =
    if d.multibyte_remain == 0
    then if is_bad_point d.total_char_len d.cur_code_point
      then none
      else some (record d { cur_code_point = 0 })
    else some d

-- One round of the loop.
unfoldable pub step : Bool → ℕ → Decoder → Option Decoder
unfolding lead follow is_bad_point
step also_check_invalid_publish_chars x d =
    if also_check_invalid_publish_chars && (x == 35 || x == 43)
    then none
    else complete (if d.multibyte_remain == 0 then lead x else follow x d)

unfoldable pub loop : Bool → Decoder → Text → Bool
unfolding step
loop also_check_invalid_publish_chars d [] = d.multibyte_remain == 0
loop also_check_invalid_publish_chars d (x ∷ s) = elim (step also_check_invalid_publish_chars x d) [
  | none ↦ false
  | some d' ↦ loop also_check_invalid_publish_chars d' s
]

unfoldable pub is_valid_utf8_generic : Text → Bool → Bool
unfolding loop
is_valid_utf8_generic s also_check_invalid_publish_chars =
    loop also_check_invalid_publish_chars (decoder 0 0 0) s
