-- ===== src/Packet/Reads.antt =====
-- mqttpacket.cpp: the reads of `MqttPacket`.
use Prim.Native.Nat.{bit_and}
use flash_mq.Base.{
  dec_lt, ℕ, zero, suc, ◌+◌, ◌*◌, ◌/◌, ◌%◌, ◌^◌, ◌≤◌, ◌<◌, ◌≡◌, ◌≢◌, refl, ◌∙◌, List, [], ◌∷◌, ◌⊎◌,
  length, length-set, get_or, set, ltb, leb, ◌==◌, arith, inl, inr, Bool-cases,
}
use flash_mq.Base.Bits.{bit_and-low, bit_or-shifted}
use flash_mq.Base.Result.{Result, ok, err}
use flash_mq.VarInt.{max_value}
use flash_mq.Packet.{
  Error, malformed_packet, Cursor, write_uint16, read_two_bytes_to_uint16, decode_loop,
  decode_variable_byte_int_at_pos,
}

get_or-set_at : (xs : List ℕ) (i v : ℕ) → i < length xs → get_or (set xs i v) i 0 ≡ v
get_or-set_at [] i v h = absurd (omega arith)
get_or-set_at (x ∷ xs) zero v h = refl
get_or-set_at (x ∷ xs) (suc i) v h = get_or-set_at xs i v (omega arith)

get_or-set_other : (xs : List ℕ) (i j v : ℕ) → i ≢ j → get_or (set xs j v) i 0 ≡ get_or xs i 0
get_or-set_other [] i j v h = refl
get_or-set_other (x ∷ xs) zero zero v h = absurd (h refl)
get_or-set_other (x ∷ xs) zero (suc j) v h = refl
get_or-set_other (x ∷ xs) (suc i) zero v h = refl
get_or-set_other (x ∷ xs) (suc i) (suc j) v h = get_or-set_other xs i j v (omega arith)

-- A 16-bit number that was written at a place in the packet is read back there, and the read ends
-- where the write ended; without room for two bytes the write throws.
pub read-write_uint16 :
    (x : ℕ) (p : Cursor)
    → x < 2 ^ 16
    → ((q : Cursor) × (write_uint16 x p ≡ ok q)
        × (q.pos ≡ p.pos + 2)
        × (q.pos ≤ length p.bites)
        × (length q.bites ≡ length p.bites)
        × (read_two_bytes_to_uint16 (record q { pos = p.pos }) ≡ ok (x, q)))
      ⊎ ((length p.bites < p.pos + 2) × (write_uint16 x p ≡ err malformed_packet))
unfolding write_uint16 read_two_bytes_to_uint16
read-write_uint16 x p h = elim (dec_lt (length p.bites) (p.pos + 2)) [
  | yes short ↦ inr (short, ground arith)
  | no room ↦
      let one = set p.bites p.pos (x / 256 % 256) in
      let two = set one (p.pos + 1) (x % 256) in
      let len = length-set one (p.pos + 1) (x % 256) ∙ length-set p.bites p.pos (x / 256 % 256) in
      let hi : get_or two p.pos 0 ≡ x / 256 % 256 =
        get_or-set_other one p.pos (p.pos + 1) (x % 256) (omega arith)
        ∙ get_or-set_at p.bites p.pos (x / 256 % 256) (omega arith) in
      let lo : get_or two (p.pos + 1) 0 ≡ x % 256 =
        get_or-set_at one (p.pos + 1) (x % 256)
          (omega (arith, length-set p.bites p.pos (x / 256 % 256))) in
      inl (
        record { bites = two; pos = p.pos + 2 },
        ground arith,
        refl,
        omega arith,
        len,
        rw (hi, lo, bit_or-shifted 8 (x / 256 % 256) (x % 256) (omega arith)) (ground arith),
      )
]

abbrev power : ℕ → ℕ
power zero = 1
power (suc k) = power k * 128

-- What `decodeVariableByteIntAtPos` can return.
abbrev pub Decoded : Cursor → ℕ → Result Error (ℕ × Cursor) → Type 0
Decoded p k (ok (v, q)) =
    (v ≤ max_value)
    × (p.pos < q.pos)
    × (q.pos + k ≤ p.pos + 4)
    × (q.pos ≤ length p.bites)
    × (q.bites ≡ p.bites)
Decoded p k (err e) = e ≡ malformed_packet

weaken :
    (p : Cursor) (k : ℕ) (r : Result Error (ℕ × Cursor))
    → Decoded (record p { pos = p.pos + 1 }) (suc k) r
    → Decoded p k r
weaken p k (ok (v, q)) d = (d.0, omega arith, omega arith, d.3, d.4)
weaken p k (err e) d = d

power_room : (k : ℕ) → k ≤ 4 → power k * 128 ≤ 128 * 128 * 128 * 128 → k ≤ 3
power_room zero small h = omega arith
power_room (suc zero) small h = omega arith
power_room (suc (suc zero)) small h = omega arith
power_room (suc (suc (suc zero))) small h = omega arith
power_room (suc (suc (suc (suc zero)))) small h = absurd (omega arith)
power_room (suc (suc (suc (suc (suc k))))) small h = absurd (omega arith)

-- The value of `k` digits and one more.
digit_more : (m v d : ℕ) → v < m → d < 128 → v + d * m < m * 128
digit_more m v d h g = grind arith

decode_loop-Decoded :
    (fuel k v : ℕ) (p : Cursor)
    → fuel + k ≡ 5
    → k ≤ 4
    → v < power k
    → Decoded p k (decode_loop fuel (power k) v p)
unfolding decode_loop
decode_loop-Decoded zero k v p e small h = absurd (omega arith)
decode_loop-Decoded (suc fuel) k v p e small h =
    let b = get_or p.bites p.pos 0 in
    let p' : Cursor = record p { pos = p.pos + 1 } in
    let v' : ℕ = v + bit_and b 127 * power k in
    let more : v' < power k * 128 =
      digit_more (power k) v (bit_and b 127) h (omega (arith, bit_and-low 7 b)) in
    elim (Bool-cases (leb (length p.bites) p.pos)) [
      | inl over ↦ rw over refl
      | inr inside ↦ elim (Bool-cases (ltb (128 * 128 * 128 * 128) (power k * 128))) [
        | inl big ↦ rw (inside, big) refl
        | inr fits ↦
            let room : power k * 128 ≤ 128 * 128 * 128 * 128 = ground arith in
            let less = power_room k small room in
            let step : Decoded p k (decode_loop fuel (power k * 128) v' p') =
              weaken p k _
                (decode_loop-Decoded fuel (suc k) v' p' (omega arith) (omega arith) more) in
            elim (Bool-cases (bit_and b 128 == 0)) [
              | inl last ↦
                  rw (inside, fits, last)
                    (omega arith, omega arith, omega arith, ground arith, refl)
              | inr rest ↦ rw (inside, fits, rest) step
            ]
      ]
    ]

-- `decodeVariableByteIntAtPos` ends, after one to four bytes inside the packet, with a value of at
-- most 268435455 and the packet unchanged, or throws `MalformedPacket`.
pub decode_variable_byte_int-Decoded :
    (p : Cursor) → Decoded p 0 (decode_variable_byte_int_at_pos p)
unfolding decode_variable_byte_int_at_pos
decode_variable_byte_int-Decoded p = decode_loop-Decoded 5 0 0 p refl (omega arith) (omega arith)
