-- ===== src/Tests/Packets.antt =====
-- The variable byte integer and the cursor of a packet.
use flash_mq.Base.{ℕ, ◌≤◌, ◌<◌, ◌≡◌, refl, ◌⊎◌, List, [], ◌∷◌, ◌++◌, length, arith}
use flash_mq.Base.Result.{ok, err}
use flash_mq.VarInt
use flash_mq.VarInt.{max_value}
use flash_mq.Packet.{
  Cursor, malformed_packet, decode_variable_byte_int_at_pos, write_uint16, read_two_bytes_to_uint16,
}
use flash_mq.Packet.RoundTrip.{at, decode-assign}
use flash_mq.Packet.Reads.{Decoded, read-write_uint16, decode_variable_byte_int-Decoded}

decode-assign_example :
    ((max_value < 16384) × (VarInt.assign 16384 ≡ err VarInt.too_big))
    ⊎ ((bytes : List ℕ) × (VarInt.assign 16384 ≡ ok bytes)
        × (16384 ≤ max_value)
        × (1 ≤ length bytes)
        × (length bytes ≤ 4)
        × (decode_variable_byte_int_at_pos (at (48 ∷ []) (bytes ++ 7 ∷ []))
            ≡ ok (16384, at ((48 ∷ []) ++ bytes) (7 ∷ []))))
decode-assign_example = decode-assign 16384 (48 ∷ []) (7 ∷ [])

assign_16384 : VarInt.assign 16384 ≡ ok (0x80 ∷ 0x80 ∷ 1 ∷ [])
unfolding VarInt.assign
assign_16384 = refl

abbrev three_bytes : Cursor
three_bytes = record { bites = 0 ∷ 1 ∷ 2 ∷ []; pos = 1 }

read-write_uint16_example :
    ((q : Cursor) × (write_uint16 0x1234 three_bytes ≡ ok q)
      × (q.pos ≡ 3)
      × (q.pos ≤ 3)
      × (length q.bites ≡ 3)
      × (read_two_bytes_to_uint16 (record q { pos = 1 }) ≡ ok (0x1234, q)))
    ⊎ ((3 < 3) × (write_uint16 0x1234 three_bytes ≡ err malformed_packet))
read-write_uint16_example = read-write_uint16 0x1234 three_bytes (omega arith)

abbrev too_long : Cursor
too_long = record { bites = 0xff ∷ 0xff ∷ 0xff ∷ 0xff ∷ 1 ∷ []; pos = 0 }

decode_variable_byte_int-Decoded_example :
    Decoded too_long 0 (decode_variable_byte_int_at_pos too_long)
decode_variable_byte_int-Decoded_example = decode_variable_byte_int-Decoded too_long

too_long_malformed : decode_variable_byte_int_at_pos too_long ≡ err malformed_packet
unfolding decode_variable_byte_int_at_pos
too_long_malformed = refl
