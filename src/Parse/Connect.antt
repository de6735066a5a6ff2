-- ===== src/Parse/Connect.antt =====
-- mqttpacket.cpp: `parseConnectData`.
pub mod Will
use Prim.Native.Nat.{bit_and}
use flash_mq.Base.{
  ℕ, ◌/◌, min, max, Bool, true, false, not, ◌||◌, ◌&&◌, any, List, [], ◌∷◌, is_nil, length, ltb,
  leb, ◌==◌, if◌then◌else◌, Option, none, some,
}
use flash_mq.Base.Result.{Result, ok, err}
use flash_mq.Base.Text.{Text, codes, str_eq}
use flash_mq.Utf8.{is_valid_utf8_generic}
use flash_mq.Packet.{
  Error, protocol_error, malformed_packet, wrong_packet_type, read_byte, read_bytes,
  read_two_bytes_to_uint16, read_four_bytes_to_uint32,
}
use flash_mq.Parse.{
  Reader, pure, throw, from, throw_if, ◌>>=◌, ◌>>◌, violation, Settings, read_string,
  read_bytes_to_string, get_expire_session_after_seconds, RetainedMessagesMode, downgrade, drop,
  disconnect_with_error,
}
use flash_mq.Parse.Header.{Header, validate_first_byte_lsb}
use flash_mq.Parse.Properties.{
  read_properties, Counts, once, repeated, UserProperties, read_user_property,
  get_first_user_property,
}

pub record WillPublish : Type 0 where
  pub topic : Text
  pub payload : Text
  pub qos : ℕ
  pub retain : Bool
  pub client_id : Text
  pub username : Text
  pub will_delay : ℕ
  pub payload_utf8 : Bool
  pub content_type : Option Text
  pub response_topic : Option Text
  pub expires_after : Option ℕ
  pub correlation_data : Option Text
  pub user_properties : UserProperties

-- `protocol_version` is the packet's, which the client gets too; `user_properties` are those of the
-- packet's `publishData`.
pub record ConnectData : Type 0 where
  pub protocol_version : ℕ
  pub user_properties : UserProperties
  pub protocol_level_byte : ℕ
  pub bridge : Bool
  pub password_flag : Bool
  pub will_retain : Bool
  pub will_qos : ℕ
  pub will_flag : Bool
  pub clean_start : Bool
  pub keep_alive : ℕ
  pub client_receive_max : ℕ
  pub session_expire : ℕ
  pub max_outgoing_packet_size : ℕ
  pub max_outgoing_topic_aliases : ℕ
  pub request_response_information : Bool
  pub request_problem_information : Bool
  pub authentication_method : Text
  pub authentication_data : Text
  pub fmq_client_group_id : Option Text
  pub client_id_prefix : Option Text
  pub client_id : Text
  pub willpublish : WillPublish
  pub username : Option Text
  pub password : Text

abbrev no_will : WillPublish
no_will = record {
  topic = [];
  payload = [];
  qos = 0;
  retain = false;
  client_id = [];
  username = [];
  will_delay = 0;
  payload_utf8 = false;
  content_type = none;
  response_topic = none;
  expires_after = none;
  correlation_data = none;
  user_properties = [];
}

-- The constructor of `ConnectData`.
abbrev pub new_connect_data : Settings → ℕ → ConnectData
new_connect_data settings version = record {
  protocol_version = version;
  user_properties = [];
  protocol_level_byte = 0;
  bridge = false;
  password_flag = false;
  will_retain = false;
  will_qos = 0;
  will_flag = false;
  clean_start = false;
  keep_alive = 0;
  client_receive_max = settings.max_qos_msg_pending_per_client;
  session_expire = get_expire_session_after_seconds settings;
  max_outgoing_packet_size = settings.max_packet_size;
  max_outgoing_topic_aliases = 0;
  request_response_information = false;
  request_problem_information = false;
  authentication_method = [];
  authentication_data = [];
  fmq_client_group_id = none;
  client_id_prefix = none;
  client_id = [];
  willpublish = no_will;
  username = none;
  password = [];
}

-- The version that the marker and the level stand for; `MQTT` with another level leaves it as it is.
unfoldable pub marked_version : Text → ℕ → ℕ → Result Error ℕ
marked_version magic_marker level version =
    if str_eq magic_marker (codes "MQTT")
    then ok (if level == 5 then 5 else if level == 4 then 4 else version)
    else if str_eq magic_marker (codes "MQIsdp") && level == 3
    then ok 3
    else err malformed_packet

-- Up to the byte with the protocol level, and the check that becomes possible then.
unfoldable pub parse_version : Settings → Header → Reader ConnectData
unfolding marked_version
parse_version settings h = do
  variable_header_length ← read_two_bytes_to_uint16
  throw_if (not (variable_header_length == 4 || variable_header_length == 6)) malformed_packet
  magic_marker ← read_bytes variable_header_length
  protocol_version_byte ← read_byte
  let level = bit_and protocol_version_byte 127
  version ← from (marked_version magic_marker level h.protocol_version)
  from (validate_first_byte_lsb (record h { protocol_version = version }))
  pure (record (new_connect_data settings version) {
    protocol_level_byte = level;
    bridge = not (bit_and protocol_version_byte 128 == 0);
  })

-- The flags; the first component is `user_name_flag`.
unfoldable pub parse_flags : ConnectData → Reader (Bool × ConnectData)
parse_flags d = do
  flag_byte ← read_byte
  throw_if (not (bit_and flag_byte 1 == 0)) malformed_packet
  let will_qos = bit_and flag_byte 24 / 8
  throw_if (ltb 2 will_qos) malformed_packet
  keep_alive ← read_two_bytes_to_uint16
  pure (
    not (bit_and flag_byte 128 == 0),
    record d {
      password_flag = not (bit_and flag_byte 64 == 0);
      will_retain = not (bit_and flag_byte 32 == 0);
      will_qos = will_qos;
      will_flag = not (bit_and flag_byte 4 == 0);
      clean_start = not (bit_and flag_byte 2 == 0);
      keep_alive = keep_alive;
    },
  )

-- `x > 1` throws.
abbrev pub read_flag : Reader Bool
read_flag = do x ← read_byte; throw_if (ltb 1 x) violation; pure (not (x == 0))

unfoldable pub connect_property :
    Settings → ConnectData × Counts → ℕ → Reader (ConnectData × Counts)
unfolding read_user_property
connect_property settings (d, pcounts) prop =
    if prop == 17
    then once 0 pcounts (do
      x ← read_four_bytes_to_uint32
      pure (record d { session_expire = min x (get_expire_session_after_seconds settings) }))
    else if prop == 33
    then once 1 pcounts (do
      x ← read_two_bytes_to_uint16
      pure (record d { client_receive_max = min x d.client_receive_max }))
    else if prop == 39
    then once 2 pcounts (do
      x ← read_four_bytes_to_uint32
      pure (record d { max_outgoing_packet_size = min x d.max_outgoing_packet_size }))
    else if prop == 34
    then once 3 pcounts (do
      x ← read_two_bytes_to_uint16
      pure
          (record d { max_outgoing_topic_aliases = min x settings.max_outgoing_topic_alias_value }))
    else if prop == 25
    then once 4 pcounts (do x ← read_flag; pure (record d { request_response_information = x }))
    else if prop == 23
    then once 5 pcounts (do x ← read_flag; pure (record d { request_problem_information = x }))
    else if prop == 38
    then repeated pcounts (do
      ps ← read_user_property settings d.user_properties
      pure (record d { user_properties = ps }))
    else if prop == 21
    then once 6 pcounts (do x ← read_string settings; pure (record d { authentication_method = x }))
    else if prop == 22
    then once 7 pcounts (do
      x ← read_bytes_to_string 65535 false false 129
      pure (record d { authentication_data = x }))
    else throw violation

abbrev longer_than : ℕ → Option Text → Bool
longer_than n none = false
longer_than n (some s) = ltb n (length s)

-- What follows the flags in MQTT 5.
unfoldable pub parse_connect_properties : Settings → ConnectData → Reader ConnectData
unfolding connect_property
parse_connect_properties settings d = do
  let start : ConnectData = record d { session_expire = 0; keep_alive = max d.keep_alive 5 }
  (d', _) ← read_properties (connect_property settings) (start, 0 ∷ 0 ∷ 0 ∷ 0 ∷ 0 ∷ 0 ∷ 0 ∷ 0 ∷ [])
  let group = get_first_user_property (codes "fmq_client_group_id") d'.user_properties
  let prefix = get_first_user_property (codes "fmq_client_id_prefix") d'.user_properties
  throw_if (longer_than 24 group) (protocol_error 131)
  throw_if (longer_than 12 prefix) (protocol_error 131)
  pure (record d' { fmq_client_group_id = group; client_id_prefix = prefix })
