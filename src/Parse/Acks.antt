-- ===== src/Parse/Acks.antt =====
-- mqttpacket.cpp: the parsers of PUBACK, PUBREC, PUBREL, PUBCOMP and SUBACK.
use Prim.Native.Nat.{bit_and}
use flash_mq.Base.{
  ℕ, zero, suc, not, ◌&&◌, List, [], ◌∷◌, ◌++◌, length, ltb, leb, ◌==◌, if◌then◌else◌, any,
}
use flash_mq.Base.Text.{Text}
use flash_mq.Packet.{
  malformed_packet, stuck, wrong_packet_type, read_byte, read_two_bytes_to_uint16,
}
use flash_mq.Parse.{
  Reader, pure, throw, throw_if, ◌>>=◌, ◌>>◌, violation, at_end, Settings, read_string,
}
use flash_mq.Parse.Header.{set_pos_to_data_start, Header}
use flash_mq.Parse.Properties.{
  read_properties, Counts, once, repeated, UserProperties, read_user_property,
}

unfoldable pub parse_pub_ack_data : Header → Reader ℕ
unfolding set_pos_to_data_start
parse_pub_ack_data h = do
  set_pos_to_data_start h
  packet_id ← read_two_bytes_to_uint16
  throw_if (packet_id == 0) violation
  pure packet_id

-- The reason codes above `Success` that a PUBREC may have.
abbrev pub pub_rec_codes : List ℕ
pub_rec_codes = 16 ∷ 128 ∷ 131 ∷ 135 ∷ 144 ∷ 145 ∷ 151 ∷ 153 ∷ []

-- The packet id and the reason code.
unfoldable pub parse_pub_rec_data : Header → Reader (ℕ × ℕ)
unfolding set_pos_to_data_start
parse_pub_rec_data h = do
  set_pos_to_data_start h
  packet_id ← read_two_bytes_to_uint16
  throw_if (packet_id == 0) violation
  ended ← at_end
  if ended then pure (packet_id, 0) else (do
    reason_code ← read_byte
    throw_if (ltb 0 reason_code && not (any (λ c. reason_code == c) pub_rec_codes)) violation
    pure (packet_id, reason_code))

unfoldable pub parse_pub_rel_data : Header → Reader ℕ
unfolding set_pos_to_data_start
parse_pub_rel_data h = do
  throw_if (not (bit_and h.first_byte 15 == 2)) malformed_packet
  set_pos_to_data_start h
  read_two_bytes_to_uint16

unfoldable pub parse_pub_comp : Header → Reader ℕ
unfolding set_pos_to_data_start
parse_pub_comp h = do
  set_pos_to_data_start h
  packet_id ← read_two_bytes_to_uint16
  throw_if (packet_id == 0) violation
  pure packet_id

pub record SubAckData : Type 0 where
  pub packet_id : ℕ
  pub reason_string : Text
  pub sub_ack_codes : List ℕ
  pub user_properties : UserProperties

unfoldable pub sub_ack_property : Settings → SubAckData × Counts → ℕ → Reader (SubAckData × Counts)
unfolding read_user_property
sub_ack_property settings (d, pcounts) prop =
    if prop == 31
    then once 0 pcounts
        (do reason ← read_string settings; pure (record d { reason_string = reason }))
    else if prop == 38
    then repeated pcounts (do
      ps ← read_user_property settings d.user_properties
      pure (record d { user_properties = ps }))
    else throw violation

-- The `while (!atEnd())` loop; a round takes a byte.
unfoldable pub sub_ack_codes_loop : ℕ → List ℕ → Reader (List ℕ)
sub_ack_codes_loop zero codes = throw stuck
sub_ack_codes_loop (suc fuel) codes = do
  ended ← at_end
  if ended then pure codes else (do code ← read_byte; sub_ack_codes_loop fuel (codes ++ code ∷ []))

unfoldable pub parse_sub_ack_data : Settings → Header → Reader SubAckData
unfolding set_pos_to_data_start sub_ack_property sub_ack_codes_loop
parse_sub_ack_data settings h = do
  throw_if (not (h.packet_type == 9)) wrong_packet_type
  set_pos_to_data_start h
  packet_id ← read_two_bytes_to_uint16
  let start : SubAckData = record {
    packet_id = packet_id;
    reason_string = [];
    sub_ack_codes = [];
    user_properties = [];
  }
  result ←
      if leb 5 h.protocol_version
      then (do (d, _) ← read_properties (sub_ack_property settings) (start, 0 ∷ []); pure d)
      else pure start
  codes ← λ p. sub_ack_codes_loop (suc (length p.bites)) [] p
  pure (record result { sub_ack_codes = codes })
