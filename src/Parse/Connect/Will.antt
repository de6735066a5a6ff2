-- ===== src/Parse/Connect/Will.antt =====
-- mqttpacket.cpp: the payload of CONNECT in `parseConnectData`: the client id, the will, the name
-- and the password.
use flash_mq.Base.{
  ℕ, Bool, true, false, not, ◌||◌, ◌&&◌, [], ◌∷◌, is_nil, leb, ◌==◌, if◌then◌else◌, Option, none,
  some,
}
use flash_mq.Topic.{contains_dangerous_characters}
use flash_mq.Base.Text.{Text}
use flash_mq.Utf8.{is_valid_utf8_generic}
use flash_mq.Packet.{
  protocol_error, malformed_packet, wrong_packet_type, read_byte, read_bytes,
  read_two_bytes_to_uint16, read_four_bytes_to_uint32,
}
use flash_mq.Parse.{
  Reader, pure, throw, throw_if, ◌>>=◌, ◌>>◌, violation, Settings, read_string,
  read_bytes_to_string, RetainedMessagesMode, downgrade, drop, disconnect_with_error,
}
use flash_mq.Parse.Header.{set_pos_to_data_start, Header}
use flash_mq.Parse.Properties.{read_properties, Counts, once, repeated, read_user_property}
use flash_mq.Parse.Connect.{
  WillPublish, ConnectData, parse_version, parse_flags, parse_connect_properties,
}

-- `startsWith` of utils.cpp.
unfoldable pub starts_with : Text → Text → Bool
starts_with s [] = true
starts_with [] (d ∷ needle) = false
starts_with (c ∷ s) (d ∷ needle) = c == d && starts_with s needle

unfoldable pub will_property : Settings → WillPublish × Counts → ℕ → Reader (WillPublish × Counts)
unfolding read_user_property
will_property settings (w, pcounts) prop =
    if prop == 24
    then once 0 pcounts (do x ← read_four_bytes_to_uint32; pure (record w { will_delay = x }))
    else if prop == 1
    then once 1 pcounts (do x ← read_byte; pure (record w { payload_utf8 = not (x == 0) }))
    else if prop == 3
    then once 2 pcounts (do x ← read_string settings; pure (record w { content_type = some x }))
    else if prop == 8
    then once 3 pcounts (do
      x ← read_bytes_to_string settings.max_string_length true true 129
      throw_if (is_nil x) violation
      pure (record w { response_topic = some x }))
    else if prop == 2
    then once 4 pcounts
        (do x ← read_four_bytes_to_uint32; pure (record w { expires_after = some x }))
    else if prop == 9
    then once 5 pcounts (do
      x ← read_bytes_to_string settings.max_string_length false false 129
      pure (record w { correlation_data = some x }))
    else if prop == 38
    then repeated pcounts (do
      ps ← read_user_property settings w.user_properties
      pure (record w { user_properties = ps }))
    else throw violation

-- What the setting makes of a will that is to be retained.
abbrev pub retained_will : RetainedMessagesMode → ConnectData → Reader ConnectData
retained_will disconnect_with_error d = throw (protocol_error 154)
retained_will downgrade d =
    pure (record d { will_retain = false; willpublish = record d.willpublish { retain = false } })
retained_will drop d = pure (record d { will_flag = false })
retained_will _ d = pure d

unfoldable pub parse_will : Settings → ConnectData → Reader ConnectData
unfolding will_property
parse_will settings d = do
  let flagged : ConnectData = record d {
    willpublish = record d.willpublish { qos = d.will_qos; retain = d.will_retain };
  }
  moded ←
      if d.will_retain then retained_will settings.retained_messages_mode flagged else pure flagged
  let start : WillPublish = record moded.willpublish { client_id = d.client_id }
  w ←
      if d.protocol_version == 5
      then (do
        (w, _) ←
            read_properties (will_property settings) (start, 0 ∷ 0 ∷ 0 ∷ 0 ∷ 0 ∷ 0 ∷ 0 ∷ 0 ∷ [])
        pure w)
      else pure start
  topic ← read_bytes_to_string settings.max_string_length true true 129
  will_payload_length ← read_two_bytes_to_uint16
  payload ← read_bytes will_payload_length
  throw_if (w.payload_utf8 && not (is_valid_utf8_generic payload false)) (protocol_error 153)
  pure (record moded {
    will_flag = moded.will_flag && not (is_nil topic);
    willpublish = record w { topic = topic; payload = payload };
  })

unfoldable pub parse_username : Settings → Reader (Option Text)
parse_username settings = do
  username ← read_bytes_to_string settings.max_string_length true false 134
  throw_if (is_nil username && not settings.zero_byte_username_is_anonymous) (protocol_error 134)
  pure (if is_nil username then none else some username)

abbrev pub check_username : Settings → Option Text → Reader (Unit {0})
check_username settings none = pure tt
check_username settings (some username) =
    throw_if (not settings.allow_unsafe_username_chars && contains_dangerous_characters username)
      (protocol_error 134)

abbrev pub lacks_prefix : Option Text → Text → Bool
lacks_prefix none client_id = false
lacks_prefix (some prefix) client_id = is_nil prefix || not (starts_with client_id prefix)

unfoldable pub parse_connect_data : Settings → Header → Reader ConnectData
unfolding set_pos_to_data_start parse_version parse_flags parse_connect_properties parse_will
    parse_username starts_with contains_dangerous_characters
parse_connect_data settings h = do
  throw_if (not (h.packet_type == 1)) wrong_packet_type
  set_pos_to_data_start h
  d₁ ← parse_version settings h
  (user_name_flag, d₂) ← parse_flags d₁
  d₃ ← if d₂.protocol_version == 5 then parse_connect_properties settings d₂ else pure d₂
  throw_if (is_nil d₃.authentication_method && not (is_nil d₃.authentication_data)) violation
  throw_if (d₃.client_receive_max == 0 || d₃.max_outgoing_packet_size == 0) violation
  client_id ← read_string settings
  throw_if (lacks_prefix d₃.client_id_prefix client_id) (protocol_error 131)
  let d₄ : ConnectData = record d₃ { client_id = client_id }
  d₅ ← if d₄.will_flag then parse_will settings d₄ else (do
    throw_if d₄.will_retain violation
    throw_if (not (d₄.will_qos == 0)) violation
    pure d₄)
  username ← if user_name_flag then parse_username settings else pure none
  check_username settings username
  throw_if (d₅.password_flag && (leb d₅.protocol_version 4 && not user_name_flag)) malformed_packet
  password ← if d₅.password_flag then read_bytes_to_string 65535 false false 129 else pure []
  pure (record d₅ {
    username = username;
    willpublish = (elim username [
      | none ↦ d₅.willpublish
      | some name ↦ record d₅.willpublish { username = name }
    ]);
    password = password;
  })
