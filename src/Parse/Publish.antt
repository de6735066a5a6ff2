-- ===== src/Parse/Publish.antt =====
-- mqttpacket.cpp: `parsePublishData`, with the topic aliases of client.cpp.
use Prim.Native.Nat.{bit_and}
use flash_mq.Base.{
  ℕ, ◌/◌, Bool, true, false, not, ◌&&◌, List, [], ◌∷◌, is_nil, ltb, leb, ◌==◌, if◌then◌else◌,
  Option, none, some,
}
use flash_mq.Base.Result.{Result, ok, err}
use flash_mq.Base.Text.{Text}
use flash_mq.Utf8.{is_valid_utf8_generic}
use flash_mq.Packet.{
  Error, protocol_error, malformed_packet, slice, read_byte, read_two_bytes_to_uint16,
  read_four_bytes_to_uint32, decode_variable_byte_int_at_pos, remaining_after_pos,
}
use flash_mq.Parse.{
  Reader, pure, throw, from, throw_if, ◌>>=◌, ◌>>◌, violation, position, Settings, read_string,
  read_bytes_to_string,
}
use flash_mq.Parse.Header.{set_pos_to_data_start, Header}
use flash_mq.Parse.Properties.{
  read_properties, Counts, once, repeated, UserProperties, read_user_property,
}

-- `Client::incomingTopicAliases`, with the rest of the client that is used.
abbrev pub Aliases : Type 0
Aliases = List (ℕ × Text)

pub record Publisher : Type 0 where
  pub username : Text
  pub client_id : Text
  pub is_local_bridge : Bool
  pub max_incoming_topic_alias_value : ℕ
  pub incoming_topic_aliases : Aliases

unfoldable pub find_alias : ℕ → Aliases → Option Text
find_alias id [] = none
find_alias id ((i, topic) ∷ m) = if i == id then some topic else find_alias id m

unfoldable pub insert_alias : ℕ → Text → Aliases → Aliases
insert_alias id topic [] = (id, topic) ∷ []
insert_alias id topic ((i, t) ∷ m) =
    if i == id then (id, topic) ∷ m else (i, t) ∷ insert_alias id topic m

unfoldable pub set_topic_alias : ℕ → Text → Publisher → Result Error Publisher
unfolding insert_alias
set_topic_alias alias_id topic c =
    if alias_id == 0
    then err violation
    else if is_nil topic
    then ok c
    else if ltb c.max_incoming_topic_alias_value alias_id
    then err (protocol_error 148)
    else ok
        (record c { incoming_topic_aliases = insert_alias alias_id topic c.incoming_topic_aliases })

unfoldable pub get_topic_alias : ℕ → Publisher → Result Error Text
unfolding find_alias
get_topic_alias id c = elim (find_alias id c.incoming_topic_aliases) [
  | none ↦ err (protocol_error 148)
  | some topic ↦ ok topic
]

-- What the parser leaves in the packet (`publishData` and the members of the packet), and the client.
pub record PublishData : Type 0 where
  pub topic : Text
  pub qos : ℕ
  pub retain : Bool
  pub username : Text
  pub client_id : Text
  pub payload_utf8 : Bool
  pub expires_after : Option ℕ
  pub response_topic : Option Text
  pub correlation_data : Option Text
  pub content_type : Option Text
  pub user_properties : UserProperties
  pub packet_id_pos : ℕ
  pub packet_id : ℕ
  pub dont_reuse_bites : Bool
  pub payload_start : ℕ
  pub payload_len : ℕ
  pub sender : Publisher

-- `TopicAlias`: an empty topic is looked up, another one is remembered.
unfoldable pub read_topic_alias : PublishData → Reader PublishData
unfolding set_topic_alias get_topic_alias
read_topic_alias d = do
  alias_id ← read_two_bytes_to_uint16
  throw_if (alias_id == 0) (protocol_error 148)
  if is_nil d.topic
      then (do
        topic ← from (get_topic_alias alias_id d.sender)
        pure (record d { dont_reuse_bites = true; topic = topic }))
      else (do
        c ← from (set_topic_alias alias_id d.topic d.sender)
        pure (record d { dont_reuse_bites = true; sender = c }))

unfoldable pub publish_property :
    Settings → PublishData × Counts → ℕ → Reader (PublishData × Counts)
unfolding read_user_property read_topic_alias
publish_property settings (d, pcounts) prop =
    if prop == 1
    then once 0 pcounts (do x ← read_byte; pure (record d { payload_utf8 = not (x == 0) }))
    else if prop == 2
    then once 1 pcounts
        (do x ← read_four_bytes_to_uint32; pure (record d { expires_after = some x }))
    else if prop == 35
    then once 2 pcounts (read_topic_alias d)
    else if prop == 8
    then once 3 pcounts (do
      x ← read_bytes_to_string settings.max_string_length true true 129
      throw_if (is_nil x) violation
      pure (record d { response_topic = some x }))
    else if prop == 9
    then once 4 pcounts (do
      x ← read_bytes_to_string settings.max_string_length false false 129
      pure (record d { correlation_data = some x }))
    else if prop == 38
    then repeated pcounts (do
      ps ← read_user_property settings d.user_properties
      pure (record d { user_properties = ps }))
    else if prop == 11
    then once 5 pcounts (do
      throw_if (not d.sender.is_local_bridge) violation
      x ← decode_variable_byte_int_at_pos
      pure (record d { dont_reuse_bites = true }))
    else if prop == 3
    then once 6 pcounts (do x ← read_string settings; pure (record d { content_type = some x }))
    else throw violation

-- The packet as the constructor leaves it, when the flags have been read.
abbrev pub start_publish : Publisher → Bool → ℕ → PublishData
start_publish sender retain qos = record {
  topic = [];
  qos = qos;
  retain = retain;
  username = sender.username;
  client_id = sender.client_id;
  payload_utf8 = false;
  expires_after = none;
  response_topic = none;
  correlation_data = none;
  content_type = none;
  user_properties = [];
  packet_id_pos = 0;
  packet_id = 0;
  dont_reuse_bites = false;
  payload_start = 0;
  payload_len = 0;
  sender = sender;
}

-- `getPayloadView`
unfoldable pub get_payload_view : PublishData → Reader Text
get_payload_view d p = ok (slice p.bites d.payload_start d.payload_len, p)

unfoldable pub parse_publish_data : Settings → Publisher → Header → Reader PublishData
unfolding set_pos_to_data_start publish_property get_payload_view
parse_publish_data settings sender h = do
  set_pos_to_data_start h
  let qos = bit_and h.first_byte 6 / 2
  throw_if (ltb 2 qos) malformed_packet
  throw_if (qos == 0 && not (bit_and h.first_byte 8 == 0)) malformed_packet
  let start = start_publish sender (not (bit_and h.first_byte 1 == 0)) qos
  topic ← read_bytes_to_string settings.max_string_length true true 129
  after_topic ← position
  packet_id ← if qos == 0 then pure 0 else read_two_bytes_to_uint16
  throw_if (not (qos == 0) && packet_id == 0) malformed_packet
  let named : PublishData = record start {
    topic = topic;
    packet_id_pos = if qos == 0 then 0 else after_topic;
    packet_id = packet_id;
  }
  d ←
      if leb 5 h.protocol_version
      then (do
        (d, _) ←
            read_properties (publish_property settings) (named, 0 ∷ 0 ∷ 0 ∷ 0 ∷ 0 ∷ 0 ∷ 0 ∷ 0 ∷ [])
        pure d)
      else pure named
  throw_if (is_nil d.topic) violation
  here ← position
  payload_len ← λ p. ok (remaining_after_pos p, p)
  let result : PublishData = record d { payload_start = here; payload_len = payload_len }
  payload ← get_payload_view result
  throw_if (d.payload_utf8 && not (is_valid_utf8_generic payload false)) (protocol_error 153)
  pure result
