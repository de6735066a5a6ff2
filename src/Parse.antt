-- ===== src/Parse.antt =====
-- mqttpacket.cpp: the parsers of incoming packets, as readers that move the cursor.
pub mod Header
pub mod Properties
pub mod Acks
pub mod Control
pub mod Publish
pub mod Connect
pub mod ConnAck
pub mod Reads
pub mod Ends
pub mod Total
pub mod Starts
use flash_mq.Base.{
  ℕ, ◌+◌, ◌<◌, Bool, true, false, not, ◌&&◌, List, length, ltb, leb, ◌==◌, if◌then◌else◌,
}
use flash_mq.Base.Text.{Text}
use flash_mq.Base.Result
use flash_mq.Base.Result.{Result, ok, err}
use flash_mq.Utf8.{is_valid_utf8_generic}
use flash_mq.Packet.{
  Error, protocol_error, string_too_long, Cursor, read_bytes, read_two_bytes_to_uint16,
}

-- A call on the packet that reads at `pos`.
abbrev pub Reader {ℓ} : Type ℓ → Type ℓ
Reader A = Cursor → Result Error (A × Cursor)

abbrev pub pure {ℓ} : {A : Type ℓ} → A → Reader A
pure a p = ok (a, p)

abbrev pub throw {ℓ} : {A : Type ℓ} → Error → Reader A
throw e p = err e

-- A call that throws and does not read.
abbrev pub from {ℓ} : {A : Type ℓ} → Result Error A → Reader A
from (ok a) = pure a
from (err e) = throw e

module _ {ℓ κ} {A : Type ℓ} {B : Type κ} where
  abbrev pub then_read : (A → Reader B) → Result Error (A × Cursor) → Result Error (B × Cursor)
  then_read k (ok (a, q)) = k a q
  then_read k (err e) = err e

  infixl 5 ◌>>=◌ ◌>>◌
  abbrev pub ◌>>=◌ : Reader A → (A → Reader B) → Reader B
  m >>= k = λ p. then_read k (m p)

  abbrev pub ◌>>◌ : Reader A → Reader B → Reader B
  m >> n = m >>= λ _. n

-- `if (bad) throw e;`
abbrev pub throw_if : Bool → Error → Reader (Unit {0})
throw_if bad e p = if bad then err e else ok (tt, p)

-- `ReasonCodes::ProtocolError`
abbrev pub violation : Error
violation = protocol_error 130

abbrev pub position : Reader ℕ
position p = ok (p.pos, p)

-- `atEnd`, whose assertion holds after every read.
abbrev pub at_end : Reader Bool
at_end p = ok (leb (length p.bites) p.pos, p)

unfoldable pub within_bound : ℕ → Reader Bool
within_bound limit p = if ltb limit p.pos then err (protocol_error 129) else ok (ltb p.pos limit, p)

-- The reason is what an invalid text is refused with.
unfoldable pub read_bytes_to_string : ℕ → Bool → Bool → ℕ → Reader Text
read_bytes_to_string max_length validate_utf8 also_check_invalid_publish_chars reason_code = do
  len ← read_two_bytes_to_uint16
  throw_if (ltb max_length len) string_too_long
  result ← read_bytes len
  throw_if (validate_utf8 && not (is_valid_utf8_generic result also_check_invalid_publish_chars))
      (protocol_error reason_code)
  pure result

-- The settings that the parsers read.
pub data RetainedMessagesMode : Type 0 where
  enabled enabled_without_persistence enabled_without_retaining downgrade drop
        disconnect_with_error :
      RetainedMessagesMode

pub record Settings : Type 0 where
  pub max_string_length : ℕ
  pub expire_sessions_after_seconds : ℕ
  pub max_qos_msg_pending_per_client : ℕ
  pub max_packet_size : ℕ
  pub max_outgoing_topic_alias_value : ℕ
  pub zero_byte_username_is_anonymous : Bool
  pub allow_unsafe_username_chars : Bool
  pub retained_messages_mode : RetainedMessagesMode

unfoldable pub get_expire_session_after_seconds : Settings → ℕ
get_expire_session_after_seconds s =
    if ltb 0 s.expire_sessions_after_seconds then s.expire_sessions_after_seconds else 4294967295

-- The defaults of `readBytesToString`: UTF-8 is checked, and a failure is a malformed packet.
unfoldable pub read_string : Settings → Reader Text
read_string s = read_bytes_to_string s.max_string_length true false 129
