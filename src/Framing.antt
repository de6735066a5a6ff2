-- ===== src/Framing.antt =====
-- mqttpacket.cpp: `bufferToMqttPackets` behind its check for ACME clients. The buffer is the list of
-- the bytes in use, with `peakAhead` as the byte at a place and `readToVector` as a split.
pub mod Rounds
pub mod Chunks
pub mod Wire
use Prim.Native.Nat.{bit_and}
use flash_mq.Base.{
  ℕ, zero, suc, ◌+◌, ◌-◌, ◌*◌, min, Bool, true, false, not, ◌&&◌, List, [], ◌∷◌, ◌++◌, length,
  get_or, take, drop, ltb, leb, ◌==◌, if◌then◌else◌, Option, none, some,
}
use flash_mq.Base.Result.{Result, ok, err}
use flash_mq.Packet.{Error, protocol_error, malformed_packet, stuck, Cursor}
use flash_mq.Parse.Header.{Header, Sender, incoming}

-- The `do` loop: `none` is the early return, when the length is not there yet; otherwise the length
-- of the fixed header and the remaining length. The index of the byte to look at is always
-- `fixed_header_length`, as it was before the round.
unfoldable pub length_loop : ℕ → List ℕ → ℕ → ℕ → ℕ → Result Error (Option (ℕ × ℕ))
length_loop zero buf fixed_header_length multiplier packet_length = err stuck
length_loop (suc fuel) buf fixed_header_length multiplier packet_length =
    let encoded_byte = get_or buf fixed_header_length 0 in
    let packet_length' = packet_length + bit_and encoded_byte 127 * multiplier in
    let rest = length_loop fuel buf (fixed_header_length + 1) (multiplier * 128) packet_length' in
    if ltb 5 (fixed_header_length + 1)
    then err malformed_packet
    else if ltb (length buf) (fixed_header_length + 1)
    then ok none
    else if ltb (128 * 128 * 128 * 128) (multiplier * 128)
    then err malformed_packet
    else if not (bit_and encoded_byte 128 == 0)
    then rest
    else ok (some (fixed_header_length + 1, packet_length'))

-- A round of the `while` loop: it leaves the loop, throws, or moves a packet out of the buffer. The
-- buffer that is left is an argument of the last two.
pub data Round : Type 0 where
  wait : Round
  bad : Error → List ℕ → Round
  packet : Header × Cursor → List ℕ → Round

abbrev pub moved : List ℕ → Result Error (Header × Cursor) → Round
moved rest (err e) = bad e rest
moved rest (ok p) = packet p rest

unfoldable pub take_packet : Sender → List ℕ → ℕ → ℕ → Round
take_packet sender buf fixed_header_length packet_length =
    if not sender.authenticated && leb 1048576 packet_length
    then bad (protocol_error 130) buf
    else if ltb (min sender.max_incoming_packet_size 268435455) packet_length
    then bad (protocol_error 149) buf
    else if leb packet_length (length buf)
    then moved (drop packet_length buf)
        (incoming (take packet_length buf) fixed_header_length sender)
    else wait

abbrev pub with_length : Sender → List ℕ → Result Error (Option (ℕ × ℕ)) → Round
with_length sender buf (err e) = bad e buf
with_length sender buf (ok none) = wait
with_length sender buf (ok (some (fixed_header_length, n))) =
    take_packet sender buf fixed_header_length (n + fixed_header_length)

-- The locals in front of the `do` loop; five rounds are enough, since the fifth throws.
unfoldable pub fixed_header : List ℕ → Result Error (Option (ℕ × ℕ))
unfolding length_loop
fixed_header buf = length_loop 5 buf 1 1 0

unfoldable pub round : Sender → List ℕ → Round
round sender buf = if ltb (length buf) 2 then wait else with_length sender buf (fixed_header buf)

-- The queue of packets, the buffer, and the exception that ended the call, if one did.
pub record Framed : Type 0 where
  pub packets : List (Header × Cursor)
  pub buf : List ℕ
  pub thrown : Option Error

abbrev pub prepend : Header × Cursor → Framed → Framed
prepend p f = record f { packets = p ∷ f.packets }

unfoldable pub loop : ℕ → Sender → List ℕ → Framed
loop zero sender buf = record { packets = []; buf = buf; thrown = some stuck }
loop (suc fuel) sender buf = elim (round sender buf) [
  | wait ↦ record { packets = []; buf = buf; thrown = none }
  | bad e rest ↦ record { packets = []; buf = rest; thrown = some e }
  | packet p rest ↦ prepend p (loop fuel sender rest)
]

-- Each packet takes bytes out of the buffer, so its length is fuel enough.
unfoldable pub buffer_to_mqtt_packets : Sender → List ℕ → Framed
buffer_to_mqtt_packets sender buf = loop (suc (length buf)) sender buf
