-- ===== src/Parse/Header.antt =====
-- mqttpacket.cpp: the first byte of a packet, and the constructor for incoming packets.
use Prim.Native.Nat.{bit_and, bit_or}
use flash_mq.Base.{
  ℕ, ◌*◌, ◌/◌, ◌%◌, ◌^◌, Bool, not, ◌||◌, ◌&&◌, List, length, get_or, ltb, ◌==◌, if◌then◌else◌,
  Option, none, some,
}
use flash_mq.Base.Result
use flash_mq.Base.Result.{Result, ok, err, ◌>>◌}
use flash_mq.Parse.{Reader}
use flash_mq.Packet.{Error, protocol_error, bad_client, malformed_packet, Cursor}

-- `PacketType` and `ProtocolVersion` are the numbers of their enumerators.
pub record Header : Type 0 where
  pub first_byte : ℕ
  pub fixed_header_length : ℕ
  pub packet_type : ℕ
  pub protocol_version : ℕ

unfoldable pub set_pos_to_data_start : Header → Reader (Unit {0})
set_pos_to_data_start h p = ok (tt, record p { pos = h.fixed_header_length })

unfoldable pub generate_first_byte : ℕ → ℕ
generate_first_byte type =
    let lsb = if type == 6 || type == 8 || type == 10 then 2 else 0 in
    bit_and (bit_or (type * 2 ^ 4) lsb) 255 % 256

-- The four low bits that the type demands, if it does: all but PUBLISH and the reserved 0.
unfoldable pub four_lsb_required : ℕ → Option ℕ
four_lsb_required type =
    if type == 6 || type == 8 || type == 10
    then some 2
    else if type == 3 || type == 0
    then none
    else some 0

abbrev pub check_lsb : ℕ → Option ℕ → Result Error (Unit {0})
check_lsb lsb none = ok tt
check_lsb lsb (some required) = Result.throw_if (not (lsb == required)) malformed_packet

unfoldable pub validate_first_byte_lsb : Header → Result Error (Unit {0})
unfolding four_lsb_required
validate_first_byte_lsb h =
    if ltb h.protocol_version 4
    then ok tt
    else check_lsb (bit_and h.first_byte 15) (four_lsb_required h.packet_type)

-- What the constructor reads of the client.
pub record Sender : Type 0 where
  pub max_incoming_packet_size : ℕ
  pub protocol_version : ℕ
  pub authenticated : Bool

-- The type is 0, or is one that versions before 5 do not have.
abbrev is_invalid_type : Header → Bool
is_invalid_type h = h.packet_type == 0 || (ltb h.protocol_version 5 && ltb 14 h.packet_type)

-- The header of the packet, and its bytes with `pos` behind the fixed header.
unfoldable pub incoming : List ℕ → ℕ → Sender → Result Error (Header × Cursor)
incoming packet_bytes fixed_header_length sender =
    let first_byte = get_or packet_bytes 0 0 in
    let h : Header = record {
      first_byte = first_byte;
      fixed_header_length = fixed_header_length;
      packet_type = bit_and first_byte 240 / 2 ^ 4;
      protocol_version = sender.protocol_version;
    } in
    do
      Result.throw_if (ltb (length packet_bytes) 2) malformed_packet
      Result.throw_if (ltb sender.max_incoming_packet_size (length packet_bytes))
          (protocol_error 149)
      Result.throw_if (is_invalid_type h)
          (if sender.protocol_version == 0 then bad_client else malformed_packet)
      validate_first_byte_lsb h
      ok (h, record { bites = packet_bytes; pos = fixed_header_length })
