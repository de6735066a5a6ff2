-- ===== src/Parse/ConnAck.antt =====
-- mqttpacket.cpp: `parseConnAckData`.
use Prim.Native.Nat.{bit_and}
use flash_mq.Base.{ℕ, min, Bool, true, false, not, [], ◌∷◌, ltb, ◌==◌, if◌then◌else◌}
use flash_mq.Base.Text.{Text}
use flash_mq.Packet.{
  wrong_packet_type, read_byte, read_two_bytes_to_uint16, read_four_bytes_to_uint32,
}
use flash_mq.Parse.{
  Reader, pure, throw, throw_if, ◌>>=◌, ◌>>◌, violation, Settings, read_string,
  read_bytes_to_string, get_expire_session_after_seconds,
}
use flash_mq.Parse.Header.{set_pos_to_data_start, Header}
use flash_mq.Parse.Properties.{read_properties, Counts, once, repeated}

pub record ConnAckData : Type 0 where
  pub session_present : Bool
  pub session_expire : ℕ
  pub client_receive_max : ℕ
  pub max_qos : ℕ
  pub max_outgoing_packet_size : ℕ
  pub max_outgoing_topic_aliases : ℕ
  pub assigned_client_id : Text
  pub keep_alive : ℕ
  pub response_information : Text
  pub server_reference : Text
  pub shared_subscriptions_available : Bool
  pub retained_available : Bool
  pub reason_code : ℕ
  pub auth_method : Text
  pub auth_data : Text

-- A number with a bound, and one that may not be zero.
abbrev pub at_most : ℕ → Reader ℕ → Reader ℕ
at_most bound m = do x ← m; throw_if (ltb bound x) violation; pure x

abbrev pub positive : Reader ℕ → Reader ℕ
positive m = do x ← m; throw_if (x == 0) violation; pure x

-- The properties that are numbers, and hand on the others.
unfoldable pub conn_ack_number :
    Settings
    → ConnAckData × Counts
    → ℕ
    → Reader (ConnAckData × Counts)
    → Reader (ConnAckData × Counts)
conn_ack_number settings (d, pcounts) prop others =
    if prop == 17
    then once 0 pcounts (do
      x ← read_four_bytes_to_uint32
      pure (record d { session_expire = min x d.session_expire }))
    else if prop == 33
    then once 1 pcounts (do
      x ← positive read_two_bytes_to_uint16
      pure (record d { client_receive_max = min x d.client_receive_max }))
    else if prop == 36
    then once 2 pcounts (do x ← at_most 2 read_byte; pure (record d { max_qos = min x d.max_qos }))
    else if prop == 37
    then once 3 pcounts
        (do x ← at_most 1 read_byte; pure (record d { retained_available = not (x == 0) }))
    else if prop == 39
    then once 4 pcounts (do
      x ← positive read_four_bytes_to_uint32
      pure (record d { max_outgoing_packet_size = min x d.max_outgoing_packet_size }))
    else if prop == 34
    then once 6 pcounts (do
      x ← read_two_bytes_to_uint16
      pure
          (record d { max_outgoing_topic_aliases = min x settings.max_outgoing_topic_alias_value }))
    else if prop == 40
    then once 8 pcounts (do x ← read_byte; pure d)
    else if prop == 41
    then once 9 pcounts (do x ← read_byte; pure d)
    else if prop == 42
    then once 10 pcounts (do
      x ← at_most 1 read_byte
      pure (record d { shared_subscriptions_available = not (x == 0) }))
    else if prop == 19
    then once 11 pcounts (do x ← read_two_bytes_to_uint16; pure (record d { keep_alive = x }))
    else others

-- The `switch`: its cases exclude each other, and the numbers come first here.
unfoldable pub conn_ack_property :
    Settings → ConnAckData × Counts → ℕ → Reader (ConnAckData × Counts)
unfolding conn_ack_number
conn_ack_property settings (d, pcounts) prop =
    conn_ack_number settings (d, pcounts) prop
      (if prop == 18
        then once 5 pcounts
            (do x ← read_string settings; pure (record d { assigned_client_id = x }))
        else if prop == 31
        then once 7 pcounts (do x ← read_string settings; pure d)
        else if prop == 38
        then repeated pcounts (do key ← read_string settings; value ← read_string settings; pure d)
        else if prop == 26
        then once 12 pcounts
            (do x ← read_string settings; pure (record d { response_information = x }))
        else if prop == 28
        then once 13 pcounts (do x ← read_string settings; pure (record d { server_reference = x }))
        else if prop == 21
        then once 14 pcounts (do x ← read_string settings; pure (record d { auth_method = x }))
        else if prop == 22
        then once 15 pcounts
            (do x ← read_bytes_to_string 65535 true false 129; pure (record d { auth_data = x }))
        else throw violation)

-- The constructor of `ConnAckData`.
abbrev pub new_conn_ack_data : Settings → ConnAckData
new_conn_ack_data settings = record {
  session_present = false;
  session_expire = get_expire_session_after_seconds settings;
  client_receive_max = settings.max_qos_msg_pending_per_client;
  max_qos = 2;
  max_outgoing_packet_size = settings.max_packet_size;
  max_outgoing_topic_aliases = 0;
  assigned_client_id = [];
  keep_alive = 0;
  response_information = [];
  server_reference = [];
  shared_subscriptions_available = true;
  retained_available = true;
  reason_code = 131;
  auth_method = [];
  auth_data = [];
}

unfoldable pub parse_conn_ack_data : Settings → Header → Reader ConnAckData
unfolding set_pos_to_data_start conn_ack_property
parse_conn_ack_data settings h = do
  throw_if (not (h.packet_type == 2)) wrong_packet_type
  set_pos_to_data_start h
  flag_byte ← read_byte
  reason_code ← read_byte
  let start : ConnAckData = record (new_conn_ack_data settings) {
    session_present = not (bit_and flag_byte 1 == 0);
    reason_code = reason_code;
  }
  if h.protocol_version == 5
      then (do
        (d, _) ←
            read_properties (conn_ack_property settings)
              (start, 0 ∷ 0 ∷ 0 ∷ 0 ∷ 0 ∷ 0 ∷ 0 ∷ 0 ∷ 0 ∷ 0 ∷ 0 ∷ 0 ∷ 0 ∷ 0 ∷ 0 ∷ 0 ∷ [])
        pure d)
      else pure start
