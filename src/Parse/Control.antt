-- ===== src/Parse/Control.antt =====
-- mqttpacket.cpp: the parsers of AUTH and DISCONNECT.
use Prim.Native.Nat.{bit_and}
use flash_mq.Base.{
  ℕ, min, Bool, true, false, not, ◌&&◌, [], ◌∷◌, is_nil, ltb, leb, ◌==◌, if◌then◌else◌,
}
use flash_mq.Base.Text.{Text}
use flash_mq.Packet.{malformed_packet, wrong_packet_type, read_byte, read_four_bytes_to_uint32}
use flash_mq.Parse.{
  Reader, pure, throw, throw_if, ◌>>=◌, ◌>>◌, violation, at_end, Settings, read_string,
  read_bytes_to_string, get_expire_session_after_seconds,
}
use flash_mq.Parse.Header.{set_pos_to_data_start, Header}
use flash_mq.Parse.Properties.{
  read_properties, Counts, once, repeated, UserProperties, read_user_property,
}

pub record AuthPacketData : Type 0 where
  pub method : Text
  pub data_ : Text
  pub reason_code : ℕ
  pub user_properties : UserProperties

unfoldable pub auth_property :
    Settings → AuthPacketData × Counts → ℕ → Reader (AuthPacketData × Counts)
unfolding read_user_property
auth_property settings (d, pcounts) prop =
    if prop == 21
    then once 0 pcounts (do x ← read_string settings; pure (record d { method = x }))
    else if prop == 22
    then once 1 pcounts
        (do x ← read_bytes_to_string 65535 false false 129; pure (record d { data_ = x }))
    else if prop == 31
    then once 2 pcounts (do x ← read_string settings; pure d)
    else if prop == 38
    then repeated pcounts (do
      ps ← read_user_property settings d.user_properties
      pure (record d { user_properties = ps }))
    else throw violation

unfoldable pub parse_auth_data : Settings → Header → Reader AuthPacketData
unfolding set_pos_to_data_start auth_property
parse_auth_data settings h = do
  throw_if (not (h.packet_type == 15)) wrong_packet_type
  throw_if (not (bit_and h.first_byte 15 == 0)) malformed_packet
  throw_if (ltb h.protocol_version 5) violation
  set_pos_to_data_start h
  reason_code ← read_byte
  let start : AuthPacketData = record {
    method = [];
    data_ = [];
    reason_code = reason_code;
    user_properties = [];
  }
  ended ← at_end
  result ← if ended then pure start else (do
    (d, _) ← read_properties (auth_property settings) (start, 0 ∷ 0 ∷ 0 ∷ 0 ∷ [])
    pure d)
  throw_if (is_nil result.method && not (is_nil result.data_)) violation
  pure result

pub record DisconnectData : Type 0 where
  pub reason_code : ℕ
  pub reason_string : Text
  pub session_expiry_interval_set : Bool
  pub session_expiry_interval : ℕ
  pub user_properties : UserProperties

unfoldable pub disconnect_property :
    Settings → DisconnectData × Counts → ℕ → Reader (DisconnectData × Counts)
unfolding read_user_property
disconnect_property settings (d, pcounts) prop =
    if prop == 17
    then once 0 pcounts (do
      x ← read_four_bytes_to_uint32
      pure (record d {
        session_expiry_interval = min x (get_expire_session_after_seconds settings);
        session_expiry_interval_set = true;
      }))
    else if prop == 31
    then once 1 pcounts (do x ← read_string settings; pure (record d { reason_string = x }))
    else if prop == 28
    then once 2 pcounts (do x ← read_string settings; pure d)
    else if prop == 38
    then repeated pcounts (do
      ps ← read_user_property settings d.user_properties
      pure (record d { user_properties = ps }))
    else throw violation

abbrev no_disconnect_data : DisconnectData
no_disconnect_data = record {
  reason_code = 0;
  reason_string = [];
  session_expiry_interval_set = false;
  session_expiry_interval = 0;
  user_properties = [];
}

unfoldable pub parse_disconnect_data : Settings → Header → Reader DisconnectData
unfolding set_pos_to_data_start disconnect_property
parse_disconnect_data settings h = do
  throw_if (not (h.packet_type == 14)) wrong_packet_type
  throw_if (not (bit_and h.first_byte 15 == 0)) malformed_packet
  set_pos_to_data_start h
  if leb 5 h.protocol_version
      then (do
        ended ← at_end
        reason_code ← if ended then pure 0 else read_byte
        let start : DisconnectData = record no_disconnect_data { reason_code = reason_code }
        ended' ← at_end
        if ended' then pure start else (do
          (d, _) ← read_properties (disconnect_property settings) (start, 0 ∷ 0 ∷ 0 ∷ 0 ∷ [])
          pure d))
      else pure no_disconnect_data
