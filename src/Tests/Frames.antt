-- ===== src/Tests/Frames.antt =====
-- The parsers of packets, the framing of a stream and the responses.
use flash_mq.Base.{ℕ, ◌+◌, ◌≡◌, refl, ◌↔◌, inl, true, false, List, [], ◌∷◌, ◌++◌, drop, arith}
use flash_mq.Base.Result.{ok}
use flash_mq.Base.Text.{Text, codes}
use flash_mq.VarInt
use flash_mq.Packet.{Cursor}
use flash_mq.Utf8.{
  lead, follow, is_overlong, is_bad_long, is_bad_point, step, loop, is_valid_utf8_generic,
}
use flash_mq.Utf8.Encode.{Decoded, is_valid_utf8_generic-Decoded}
use flash_mq.Parse.{Settings, disconnect_with_error}
use flash_mq.Parse.Header.{Header, Sender, incoming}
use flash_mq.Parse.Properties.{read_properties}
use flash_mq.Parse.Acks.{
  parse_pub_ack_data, parse_pub_rec_data, parse_pub_rel_data, parse_pub_comp, parse_sub_ack_data,
}
use flash_mq.Parse.Control.{AuthPacketData, auth_property, parse_auth_data, parse_disconnect_data}
use flash_mq.Parse.Publish.{Publisher, parse_publish_data}
use flash_mq.Parse.Connect.Will.{parse_connect_data}
use flash_mq.Parse.ConnAck.{parse_conn_ack_data}
use flash_mq.Parse.Reads.{Within}
use flash_mq.Parse.Ends.{Ended, read_properties-Ended}
use flash_mq.Parse.Starts.{parsers-Within}
use flash_mq.Framing.{buffer_to_mqtt_packets}
use flash_mq.Framing.Chunks.{feed, buffer_to_mqtt_packets-append}
use flash_mq.Framing.Wire.{taken, buffer_to_mqtt_packets-read_into_buf}
use flash_mq.Build.{Outgoing, read_into_buf}

-- The euro sign and a letter.
abbrev euro_a : Text
euro_a = 0xe2 ∷ 0x82 ∷ 0xac ∷ 97 ∷ []

is_valid_utf8_generic-Decoded_example :
    (is_valid_utf8_generic euro_a true ≡ true) ↔ Decoded true euro_a
is_valid_utf8_generic-Decoded_example = is_valid_utf8_generic-Decoded true euro_a refl

euro_valid : is_valid_utf8_generic euro_a true ≡ true
unfolding is_valid_utf8_generic loop step lead follow is_bad_point is_overlong is_bad_long
euro_valid = refl

-- Code point 0x110000, one more than Unicode has.
beyond_valid : is_valid_utf8_generic (0xf4 ∷ 0x90 ∷ 0x80 ∷ 0x80 ∷ []) false ≡ true
unfolding is_valid_utf8_generic loop step lead follow is_bad_point is_overlong is_bad_long
beyond_valid = refl

abbrev settings : Settings
settings = record {
  max_string_length = 4096;
  expire_sessions_after_seconds = 1209600;
  max_qos_msg_pending_per_client = 512;
  max_packet_size = 268435455;
  max_outgoing_topic_alias_value = 65535;
  zero_byte_username_is_anonymous = false;
  allow_unsafe_username_chars = false;
  retained_messages_mode = disconnect_with_error;
}

abbrev publisher : Publisher
publisher = record {
  username = codes "u";
  client_id = codes "c";
  is_local_bridge = false;
  max_incoming_topic_alias_value = 10;
  incoming_topic_aliases = [];
}

-- A PUBLISH with QoS 1 of `x` on the topic `a`.
abbrev publish_bytes : List ℕ
publish_bytes = 0x32 ∷ 6 ∷ 0 ∷ 1 ∷ 97 ∷ 0 ∷ 7 ∷ 120 ∷ []

abbrev publish_header : Header
publish_header = record {
  first_byte = 0x32;
  fixed_header_length = 2;
  packet_type = 3;
  protocol_version = 4;
}

abbrev publish_cursor : Cursor
publish_cursor = record { bites = publish_bytes; pos = 2 }

parsers-Within_example :
    Within 2 publish_bytes (parse_connect_data settings publish_header publish_cursor)
    × Within 2 publish_bytes (parse_conn_ack_data settings publish_header publish_cursor)
    × Within 2 publish_bytes (parse_publish_data settings publisher publish_header publish_cursor)
    × Within 2 publish_bytes (parse_pub_ack_data publish_header publish_cursor)
    × Within 2 publish_bytes (parse_pub_rec_data publish_header publish_cursor)
    × Within 2 publish_bytes (parse_pub_rel_data publish_header publish_cursor)
    × Within 2 publish_bytes (parse_pub_comp publish_header publish_cursor)
    × Within 2 publish_bytes (parse_sub_ack_data settings publish_header publish_cursor)
    × Within 2 publish_bytes (parse_disconnect_data settings publish_header publish_cursor)
    × Within 2 publish_bytes (parse_auth_data settings publish_header publish_cursor)
parsers-Within_example =
    parsers-Within settings publisher publish_header publish_cursor (omega arith)

abbrev no_auth : AuthPacketData
no_auth = record { method = []; data_ = []; reason_code = 0; user_properties = [] }

-- One property, an authentication method.
abbrev method_cursor : Cursor
method_cursor = record { bites = 0xf0 ∷ 7 ∷ 0 ∷ 4 ∷ 21 ∷ 0 ∷ 1 ∷ 97 ∷ 9 ∷ []; pos = 3 }

read_properties-Ended_example :
    Ended method_cursor
      (read_properties (auth_property settings) (no_auth, 0 ∷ 0 ∷ 0 ∷ 0 ∷ []) method_cursor)
read_properties-Ended_example =
    read_properties-Ended (auth_property settings) (no_auth, 0 ∷ 0 ∷ 0 ∷ 0 ∷ []) method_cursor

abbrev client : Sender
client = record { max_incoming_packet_size = 1000; protocol_version = 4; authenticated = true }

-- The PUBLISH, cut in the middle.
buffer_to_mqtt_packets-append_example :
    buffer_to_mqtt_packets client ((0x32 ∷ 6 ∷ 0 ∷ []) ++ 1 ∷ 97 ∷ 0 ∷ 7 ∷ 120 ∷ [])
    ≡ feed client (buffer_to_mqtt_packets client (0x32 ∷ 6 ∷ 0 ∷ [])) (1 ∷ 97 ∷ 0 ∷ 7 ∷ 120 ∷ [])
buffer_to_mqtt_packets-append_example =
    buffer_to_mqtt_packets-append client (0x32 ∷ 6 ∷ 0 ∷ []) (1 ∷ 97 ∷ 0 ∷ 7 ∷ 120 ∷ [])

abbrev outgoing : Outgoing
outgoing = record {
  first_byte = 0x32;
  fixed_header_length = 0;
  bites = 0 ∷ 1 ∷ 97 ∷ 0 ∷ 7 ∷ 120 ∷ [];
}

written : read_into_buf outgoing ≡ ok publish_bytes
unfolding read_into_buf VarInt.assign
written = refl

buffer_to_mqtt_packets-read_into_buf_example :
    (fixed : ℕ) × (fixed + 6 ≡ 8)
    × (drop fixed publish_bytes ≡ 0 ∷ 1 ∷ 97 ∷ 0 ∷ 7 ∷ 120 ∷ [])
    × (buffer_to_mqtt_packets client (publish_bytes ++ 0xc0 ∷ [])
        ≡ taken client (0xc0 ∷ []) (incoming publish_bytes fixed client))
buffer_to_mqtt_packets-read_into_buf_example =
    buffer_to_mqtt_packets-read_into_buf client outgoing publish_bytes (0xc0 ∷ []) refl written
      (omega arith, omega arith, inl refl)

-- A client of version 5, with the reason codes 146 and 16.
abbrev client_5 : Sender
client_5 = record { max_incoming_packet_size = 1000; protocol_version = 5; authenticated = true }
