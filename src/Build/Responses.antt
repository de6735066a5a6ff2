-- ===== src/Build/Responses.antt =====
-- mqttpacket.cpp: the responses to QoS packets, from the one that makes them to the one that parses them.
use Prim.Native.Nat.{bit_and}
use flash_mq.Base.{
  ℕ, ◌/◌, ◌%◌, ◌^◌, ◌<◌, ◌≡◌, Bool, true, false, ◌||◌, List, [], ◌∷◌, ltb, leb, ◌==◌, if◌then◌else◌,
  any,
}
use flash_mq.Base.Result.{Result, ok}
use flash_mq.Packet.{Error, Cursor}
use flash_mq.Parse.Header.{
  Header, Sender, incoming, check_lsb, four_lsb_required, generate_first_byte,
}
use flash_mq.Parse.Acks.{pub_rec_codes}
use flash_mq.Build.{PubResponse, pub_response, needs_reason_code, pub_response_packet}

-- The bytes of a response, with its reason code or without.
abbrev reason_part : Bool → ℕ → List ℕ
reason_part true reason = reason ∷ []
reason_part false reason = []

abbrev bytes_of : Bool → ℕ → ℕ → ℕ → List ℕ
bytes_of coded type packet_id reason =
    generate_first_byte type
    ∷ (if coded then 3 else 2)
    ∷ (packet_id / 256 % 256)
    ∷ (packet_id % 256)
    ∷ reason_part coded reason

abbrev response_bytes : PubResponse → List ℕ
response_bytes r = bytes_of (needs_reason_code r) r.packet_type r.packet_id r.reason_code

-- A type whose first byte the reader takes back apart.
record Plain (type : ℕ) : Type 0 where
  back : bit_and (generate_first_byte type) 240 / 2 ^ 4 ≡ type
  low : check_lsb (bit_and (generate_first_byte type) 15) (four_lsb_required type) ≡ ok tt
  not_reserved : (type == 0) ≡ false
  old : ltb 14 type ≡ false

abbrev header : ℕ → Sender → Header
header type s = record {
  first_byte = generate_first_byte type;
  fixed_header_length = 2;
  packet_type = type;
  protocol_version = s.protocol_version;
}

-- A response that the server makes, and how the reader of its bytes parses them.
abbrev pub Received :
    {A : Type 0} → Sender → ℕ → ℕ → ℕ → (Header → Cursor → Result Error (A × Cursor)) → A → Type 0
Received s type reason packet_id parse a =
    (w : List ℕ) × (h : Header) × (c c' : Cursor) × (pub_response_packet
        (pub_response s.protocol_version type reason packet_id)
      ≡ ok (record { first_byte = generate_first_byte type; fixed_header_length = 2; bites = w }))
    × (incoming w 2 s ≡ ok (h, c))
    × (parse h c ≡ ok (a, c'))

module _ (s : Sender) (reason packet_id : ℕ) (positive : 0 < packet_id)
    (small : packet_id < 65536) where
  coded : Bool
  coded = needs_reason_code (pub_response s.protocol_version 4 reason packet_id)

  code : ℕ
  code = if leb 5 s.protocol_version then reason else 0

  wire : ℕ → Cursor
  wire type = record { bites = bytes_of coded type packet_id code; pos = 2 }

-- The reason codes that a PUBREC may have.
abbrev pub is_pub_rec_code : ℕ → Bool
is_pub_rec_code reason = reason == 0 || any (λ c. reason == c) pub_rec_codes
