-- ===== src/Packet/RoundTrip.antt =====
-- variablebyteint.cpp and `decodeVariableByteIntAtPos` of mqttpacket.cpp.
use flash_mq.Base.{
  ◌⊎◌, ℕ, zero, suc, ◌+◌, ◌*◌, ◌/◌, ◌%◌, ◌≤◌, ◌<◌, ◌≡◌, refl, ◌∙◌, ap, List, [], ◌∷◌, ◌++◌, length,
  length-append, append_assoc, get_or, ltb, if◌then◌else◌, arith, inl, inr, dec_lt,
}
use flash_mq.Base.Bits.{bit_and-127, bit_and-128, bit_or-128}
use flash_mq.Base.Result.{ok, err}
use flash_mq.VarInt
use flash_mq.VarInt.{assign_loop, max_value}
use flash_mq.Packet.{Cursor, decode_loop, decode_variable_byte_int_at_pos}

-- 128 to the number of places.
abbrev cap : ℕ → ℕ
cap zero = 1
cap (suc k) = 128 * cap k

get_or-append : (pre : List ℕ) (b : ℕ) (rest : List ℕ) → get_or (pre ++ b ∷ rest) (length pre) 0 ≡ b
get_or-append [] b rest = refl
get_or-append (c ∷ pre) b rest = get_or-append pre b rest

-- The cursor behind `pre`, with `rest` still to come.
abbrev pub at : List ℕ → List ℕ → Cursor
at pre rest = record { bites = pre ++ rest; pos = length pre }

step_over :
    (b : ℕ) (pre rest : List ℕ)
    → ◌≡◌ {A = Cursor}
        (record { bites = pre ++ b ∷ rest; pos = length pre + 1 })
        (at (pre ++ b ∷ []) rest)
step_over b pre rest = ground (arith, append_assoc pre (b ∷ []) rest, length-append pre (b ∷ []))

decode_first :
    (fuel m v b : ℕ) (pre rest : List ℕ)
    → m * 128 ≤ 128 * 128 * 128 * 128
    → b < 256
    → decode_loop (suc fuel) m v (at pre (b ∷ rest)) ≡ (
        if ltb b 128
        then ok (v + b % 128 * m, at (pre ++ b ∷ []) rest)
        else decode_loop fuel (m * 128) (v + b % 128 * m) (at (pre ++ b ∷ []) rest))
unfolding decode_loop
decode_first fuel m v b pre rest h hb =
    rw (get_or-append pre b rest, bit_and-127 b hb, bit_and-128 b hb, step_over b pre rest)
      (ground (arith, length-append pre (b ∷ rest)))

assign_last : (places x : ℕ) → x < 128 → assign_loop (suc places) x ≡ x ∷ []
unfolding assign_loop
assign_last places x h = ground arith

assign_more :
    (places x : ℕ)
    → 128 ≤ x
    → assign_loop (suc places) x ≡ (x % 128 + 128) ∷ assign_loop places (x / 128)
unfolding assign_loop
assign_more places x h = ground (arith, bit_or-128 (x % 128) (omega arith))

cap_pos : (k : ℕ) → 0 < cap k
cap_pos zero = omega arith
cap_pos (suc k) = omega (arith, cap_pos k)

weight_le : (m c n : ℕ) → 0 < c → m * (128 * c) ≡ n → m * 128 ≤ n
weight_le m c n h e = grind arith

-- What a value that fits one byte is decoded to.
decode_last :
    (places m v x : ℕ) (pre rest : List ℕ)
    → m * 128 ≤ 128 * 128 * 128 * 128
    → x < 128
    → decode_loop (suc (suc places)) m v (at pre (assign_loop (suc places) x ++ rest))
      ≡ ok (v + x * m, at (pre ++ assign_loop (suc places) x) rest)
decode_last places m v x pre rest h small =
    rw (assign_last places x small, decode_first (suc places) m v x pre rest h (omega arith))
      (ground arith)

-- `x` fits the places that are left, and the multiplier has the weight of the next one.
decode-assign_loop :
    (places m v x : ℕ) (pre rest : List ℕ)
    → m * cap (suc places) ≡ 128 * 128 * 128 * 128
    → x < cap (suc places)
    → decode_loop (suc (suc places)) m v (at pre (assign_loop (suc places) x ++ rest))
      ≡ ok (v + x * m, at (pre ++ assign_loop (suc places) x) rest)
decode-assign_loop zero m v x pre rest hm hx =
    decode_last zero m v x pre rest (omega arith) (omega arith)
decode-assign_loop (suc places) m v x pre rest hm hx =
    let w = weight_le m (cap (suc places)) _ (cap_pos (suc places)) hm in
    elim (dec_lt x 128) [
      | yes small ↦ decode_last (suc places) m v x pre rest w small
      | no big ↦
          let b : ℕ = x % 128 + 128 in
          let ih =
            decode-assign_loop places (m * 128) (v + x % 128 * m) (x / 128) (pre ++ b ∷ []) rest
              (omega arith) (omega arith) in
          let same : b % 128 ≡ x % 128 = omega arith in
          let whole : 128 * (x / 128) + x % 128 ≡ x = omega arith in
          let value : v + x % 128 * m + x / 128 * (m * 128) ≡ v + x * m =
            omega (arith, ap (λ (t : ℕ). t * m) whole) in
          rw
            (
              assign_more (suc places) x (omega arith),
              decode_first (suc (suc places)) m v b pre (assign_loop (suc places) (x / 128) ++ rest)
                  w (omega arith),
            )
            (ground (
              arith,
              ih,
              same,
              value,
              append_assoc pre (b ∷ []) (assign_loop (suc places) (x / 128)),
            ))
    ]

length-assign_loop :
    (places x : ℕ)
    → 0 < places
    → (1 ≤ length (assign_loop places x)) × (length (assign_loop places x) ≤ places)
unfolding assign_loop
length-assign_loop zero x h = absurd (omega arith)
length-assign_loop (suc zero) x h = ground arith
length-assign_loop (suc (suc places)) x h =
    ground (arith, length-assign_loop (suc places) (x / 128) (omega arith))

-- A value of at most 268435455 is encoded in one to four bytes, and
-- `decodeVariableByteIntAtPos`, at those bytes in any packet, returns it and stops right behind
-- them; a larger value is refused.
pub decode-assign :
    (x : ℕ) (pre rest : List ℕ)
    → ((max_value < x) × (VarInt.assign x ≡ err VarInt.too_big))
      ⊎ ((bytes : List ℕ) × (VarInt.assign x ≡ ok bytes)
          × (x ≤ max_value)
          × (1 ≤ length bytes)
          × (length bytes ≤ 4)
          × (decode_variable_byte_int_at_pos (at pre (bytes ++ rest))
              ≡ ok (x, at (pre ++ bytes) rest)))
unfolding VarInt.assign decode_variable_byte_int_at_pos
decode-assign x pre rest = elim (dec_lt max_value x) [
  | yes big ↦ inl (big, ground arith)
  | no small ↦
      let (low, high) = length-assign_loop 4 x (omega arith) in
      inr (
        assign_loop 4 x,
        ground arith,
        omega arith,
        low,
        high,
        decode-assign_loop 3 1 0 x pre rest (omega arith) (omega arith) ∙ ground arith,
      )
]
