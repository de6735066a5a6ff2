-- ===== src/Build.antt =====
-- mqttpacket.cpp and types.cpp: the packets that the server makes, and how they are written out.
pub mod Responses
use Prim.Native.Nat.{bit_and}
use flash_mq.Base.{
  ℕ, ◌+◌, ◌&&◌, Bool, List, [], ◌∷◌, ◌++◌, length, replicate, ltb, leb, ◌==◌, if◌then◌else◌,
}
use flash_mq.Base.Result.{Result, ok, err, ◌>>=◌}
use flash_mq.VarInt
use flash_mq.Packet.{Error, Cursor, write_byte, write_uint16}
use flash_mq.Parse.Header.{generate_first_byte}

-- A packet with the members that writing it out needs.
pub record Outgoing : Type 0 where
  pub first_byte : ℕ
  pub fixed_header_length : ℕ
  pub bites : List ℕ

-- `readIntoBuf`: what it appends to the buffer. The remaining length is that of
-- `calculateRemainingLength`, which is what throws when the packet is too big.
unfoldable pub read_into_buf : Outgoing → Result VarInt.Error (List ℕ)
read_into_buf p = if ltb 0 p.fixed_header_length then ok p.bites else (do
  remaining_length ← VarInt.assign (length p.bites)
  ok (p.first_byte ∷ remaining_length ++ p.bites))

pub record PubResponse : Type 0 where
  pub packet_type : ℕ
  pub protocol_version : ℕ
  pub reason_code : ℕ
  pub packet_id : ℕ

-- The constructor: versions before 5 have no reason code.
unfoldable pub pub_response : ℕ → ℕ → ℕ → ℕ → PubResponse
pub_response version type reason_code packet_id = record {
  packet_type = type;
  protocol_version = version;
  reason_code = if leb 5 version then reason_code else 0;
  packet_id = packet_id;
}

unfoldable pub needs_reason_code : PubResponse → Bool
needs_reason_code r = leb 5 r.protocol_version && ltb 0 r.reason_code

unfoldable pub get_remaining_length : PubResponse → ℕ
unfolding needs_reason_code
get_remaining_length r = if needs_reason_code r then 3 else 2

unfoldable pub get_length_including_fixed_header : PubResponse → ℕ
unfolding get_remaining_length
get_length_including_fixed_header r = 2 + get_remaining_length r

-- `MqttPacket(pubAck)`
unfoldable pub pub_response_packet : PubResponse → Result Error Outgoing
unfolding get_length_including_fixed_header generate_first_byte write_byte write_uint16
    needs_reason_code
pub_response_packet r = do
  let first_byte = generate_first_byte r.packet_type
  let start : Cursor = record { bites = replicate (get_length_including_fixed_header r) 0; pos = 0 }
  p₁ ← write_byte first_byte start
  p₂ ← write_byte (get_remaining_length r) p₁
  p₃ ← write_uint16 r.packet_id p₂
  p₄ ← if needs_reason_code r then write_byte r.reason_code p₃ else ok p₃
  ok (record { first_byte = first_byte; fixed_header_length = 2; bites = p₄.bites })
