-- ===== src/Packet.antt =====
-- The byte cursor of `MqttPacket`: `bites`, `pos`, and the reads and writes that move it.
pub mod Reads
pub mod RoundTrip
use Prim.Native.Nat.{bit_and, bit_or}
use flash_mq.Base.{
  ◌++◌, ◌^◌, ℕ, zero, suc, ◌+◌, ◌-◌, ◌*◌, ◌/◌, ◌%◌, ◌^◌, Bool, true, false, not, ◌||◌, ◌&&◌, List,
  [], ◌∷◌, ◌++◌, length, get_or, set, take, drop, ltb, leb, ◌==◌, if◌then◌else◌,
}
use flash_mq.Base.Text.{Text}
use flash_mq.Base.Result.{Result, ok, err, ◌>>=◌, ◌>>◌, throw_if}

-- `ProtocolError` with its reason code, the `std::runtime_error` of a long string and that of a
-- parser called on a packet of another type, and `BadClientException`. `stuck` is no exception of
-- the code: it marks a loop that ran out of fuel.
pub data Error : Type 0 where
  protocol_error : ℕ → Error
  string_too_long stuck wrong_packet_type bad_client : Error

abbrev pub malformed_packet : Error
malformed_packet = protocol_error 129

pub record Cursor : Type 0 where
  pub bites : List ℕ
  pub pos : ℕ

-- The bytes from `bites[pos]` on, `n` of them.
abbrev pub slice : List ℕ → ℕ → ℕ → List ℕ
slice bites pos n = take n (drop pos bites)

unfoldable pub read_bytes : ℕ → Cursor → Result Error (Text × Cursor)
read_bytes n p =
    if ltb (length p.bites) (p.pos + n)
    then err malformed_packet
    else ok (slice p.bites p.pos n, record p { pos = p.pos + n })

unfoldable pub read_byte : Cursor → Result Error (ℕ × Cursor)
read_byte p =
    if ltb (length p.bites) (p.pos + 1)
    then err malformed_packet
    else ok (get_or p.bites p.pos 0, record p { pos = p.pos + 1 })

unfoldable pub write_byte : ℕ → Cursor → Result Error Cursor
write_byte b p =
    if ltb (length p.bites) (p.pos + 1)
    then err malformed_packet
    else ok (record p { bites = set p.bites p.pos b; pos = p.pos + 1 })

-- `write(src)`
unfoldable pub write : List ℕ → Cursor → Result Error Cursor
write src p =
    if ltb (length p.bites) (p.pos + length src)
    then err malformed_packet
    else ok (record p {
      bites = take p.pos p.bites ++ (src ++ drop (p.pos + length src) p.bites);
      pos = p.pos + length src;
    })

-- `x >> 8` and `x`, each cast to a byte.
unfoldable pub write_uint16 : ℕ → Cursor → Result Error Cursor
write_uint16 x p =
    if ltb (length p.bites) (p.pos + 2)
    then err malformed_packet
    else ok (record p {
      bites = set (set p.bites p.pos (x / 256 % 256)) (p.pos + 1) (x % 256);
      pos = p.pos + 2;
    })

-- The length is cast to a `uint16_t`.
unfoldable pub write_string : Text → Cursor → Result Error Cursor
unfolding write_uint16 write
write_string s p = do p' ← write_uint16 (length s % 2 ^ 16) p; write s p'

-- `a << 8 | b`
unfoldable pub read_two_bytes_to_uint16 : Cursor → Result Error (ℕ × Cursor)
read_two_bytes_to_uint16 p =
    if ltb (length p.bites) (p.pos + 2)
    then err malformed_packet
    else ok (
      bit_or (get_or p.bites p.pos 0 * 2 ^ 8) (get_or p.bites (p.pos + 1) 0) % 2 ^ 16,
      record p { pos = p.pos + 2 },
    )

-- `(a << 24) | (b << 16) | (c << 8) | d`
unfoldable pub read_four_bytes_to_uint32 : Cursor → Result Error (ℕ × Cursor)
read_four_bytes_to_uint32 p =
    if ltb (length p.bites) (p.pos + 4)
    then err malformed_packet
    else let a = get_or p.bites p.pos 0 in
      let b = get_or p.bites (p.pos + 1) 0 in
      let c = get_or p.bites (p.pos + 2) 0 in
      let d = get_or p.bites (p.pos + 3) 0 in
      ok (
        bit_or (bit_or (bit_or (a * 2 ^ 24) (b * 2 ^ 16)) (c * 2 ^ 8)) d % 2 ^ 32,
        record p { pos = p.pos + 4 },
      )

unfoldable pub remaining_after_pos : Cursor → ℕ
remaining_after_pos p = length p.bites - p.pos

-- The `do` loop of `decodeVariableByteIntAtPos`. `multiplier` and `value` stay far below 2 ^ 64.
unfoldable pub decode_loop : ℕ → ℕ → ℕ → Cursor → Result Error (ℕ × Cursor)
decode_loop zero multiplier value p = err stuck
decode_loop (suc fuel) multiplier value p =
    let encoded_byte = get_or p.bites p.pos 0 in
    let p' : Cursor = record p { pos = p.pos + 1 } in
    let value' = value + bit_and encoded_byte 127 * multiplier in
    let rest = decode_loop fuel (multiplier * 128) value' p' in
    if leb (length p.bites) p.pos
    then err malformed_packet
    else if ltb (128 * 128 * 128 * 128) (multiplier * 128)
    then err malformed_packet
    else if not (bit_and encoded_byte 128 == 0)
    then rest
    else ok (value', p')

-- Five rounds are enough, since the multiplier passes its bound in the fifth.
unfoldable pub decode_variable_byte_int_at_pos : Cursor → Result Error (ℕ × Cursor)
unfolding decode_loop
decode_variable_byte_int_at_pos p = decode_loop 5 1 0 p
