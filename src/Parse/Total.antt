-- ===== src/Parse/Total.antt =====
-- mqttpacket.cpp: the cases of each loop over properties, and the parsers that use them.

use flash_mq.Base.{ℕ, Bool, true, false, not, ◌==◌, if◌then◌else◌, Option, none, some}
use flash_mq.Base.Text.{Text}
use flash_mq.Base.Result
use flash_mq.Base.Result.{Result, ok, err}
use flash_mq.Packet.{Error, protocol_error, malformed_packet}
use flash_mq.Parse.{Reader, from, Settings}
use flash_mq.Parse.Header.{Header, check_lsb, validate_first_byte_lsb}
use flash_mq.Parse.Properties.{Counts}
use flash_mq.Parse.Acks.{sub_ack_property, SubAckData}
use flash_mq.Parse.Control.{auth_property, AuthPacketData, disconnect_property, DisconnectData}
use flash_mq.Parse.Publish.{
  Publisher, PublishData, find_alias, set_topic_alias, get_topic_alias, read_topic_alias,
  publish_property,
}
use flash_mq.Parse.Connect.{ConnectData, WillPublish, marked_version, connect_property}
use flash_mq.Parse.Connect.Will.{will_property}
use flash_mq.Parse.ConnAck.{ConnAckData, conn_ack_number, conn_ack_property}
use flash_mq.Parse.Reads.{Reads, IsThrown, protocol_error-IsThrown, Reads-pure, Reads-throw}
use flash_mq.Parse.Ends.{properties}

-- A call that throws and does not read.
abbrev pub OnlyThrows : {A : Type 0} → Result Error A → Type 0
OnlyThrows (ok a) = Unit
OnlyThrows (err e) = IsThrown e

pub Reads-from : {A : Type 0} (r : Result Error A) → OnlyThrows r → Reads (from r)
Reads-from (ok a) h = Reads-pure a
Reads-from (err e) h = Reads-throw e h

pub OnlyThrows-if :
    {A : Type 0} (b : Bool) (x y : Result Error A)
    → OnlyThrows x
    → OnlyThrows y
    → OnlyThrows (if b then x else y)
OnlyThrows-if true x y h g = h
OnlyThrows-if false x y h g = g

pub OnlyThrows-ok : {A : Type 0} (a : A) → OnlyThrows (ok a)
OnlyThrows-ok a = tt

pub OnlyThrows-err : (A : Type 0) (n : ℕ) → OnlyThrows {A = A} (err (protocol_error n))
OnlyThrows-err A n = protocol_error-IsThrown n

pub ruleset only_throws = (OnlyThrows-if, OnlyThrows-ok, OnlyThrows-err)

pub get_topic_alias-OnlyThrows : (id : ℕ) (c : Publisher) → OnlyThrows (get_topic_alias id c)
unfolding get_topic_alias
get_topic_alias-OnlyThrows id c = go (find_alias id c.incoming_topic_aliases)
  where
    go :
        (o : Option Text)
        → OnlyThrows (elim o [ none ↦ err (protocol_error 148) | some topic ↦ ok topic ])
    go none = protocol_error-IsThrown 148
    go (some topic) = tt

pub set_topic_alias-OnlyThrows :
    (id : ℕ) (topic : Text) (c : Publisher) → OnlyThrows (set_topic_alias id topic c)
unfolding set_topic_alias
set_topic_alias-OnlyThrows id topic c = search (only_throws)

pub marked_version-OnlyThrows :
    (marker : Text) (level version : ℕ) → OnlyThrows (marked_version marker level version)
unfolding marked_version
marked_version-OnlyThrows marker level version = search (only_throws)

pub check_lsb-OnlyThrows : (lsb : ℕ) (o : Option ℕ) → OnlyThrows (check_lsb lsb o)
check_lsb-OnlyThrows lsb none = tt
check_lsb-OnlyThrows lsb (some required) = go (not (lsb == required))
  where
    go : (b : Bool) → OnlyThrows (Result.throw_if b malformed_packet)
    go true = protocol_error-IsThrown 129
    go false = tt

pub validate_first_byte_lsb-OnlyThrows : (h : Header) → OnlyThrows (validate_first_byte_lsb h)
unfolding validate_first_byte_lsb
validate_first_byte_lsb-OnlyThrows h = search (only_throws, check_lsb-OnlyThrows)

module _ (settings : Settings) where
  pub Reads-sub_ack_property :
      (s : SubAckData × Counts) (prop : ℕ) → Reads (sub_ack_property settings s prop)
  unfolding sub_ack_property
  Reads-sub_ack_property s prop = search (properties) depth 20

  pub Reads-auth_property :
      (s : AuthPacketData × Counts) (prop : ℕ) → Reads (auth_property settings s prop)
  unfolding auth_property
  Reads-auth_property s prop = search (properties) depth 20

  pub Reads-disconnect_property :
      (s : DisconnectData × Counts) (prop : ℕ) → Reads (disconnect_property settings s prop)
  unfolding disconnect_property
  Reads-disconnect_property s prop = search (properties) depth 20

  pub Reads-publish_property :
      (s : PublishData × Counts) (prop : ℕ) → Reads (publish_property settings s prop)
  unfolding publish_property read_topic_alias
  Reads-publish_property s prop =
      search (properties, Reads-from, get_topic_alias-OnlyThrows, set_topic_alias-OnlyThrows) depth
        30

  pub Reads-connect_property :
      (s : ConnectData × Counts) (prop : ℕ) → Reads (connect_property settings s prop)
  unfolding connect_property
  Reads-connect_property s prop = search (properties) depth 30

  pub Reads-will_property :
      (s : WillPublish × Counts) (prop : ℕ) → Reads (will_property settings s prop)
  unfolding will_property
  Reads-will_property s prop = search (properties) depth 30

  pub Reads-conn_ack_number :
      (s : ConnAckData × Counts) (prop : ℕ) (others : Reader (ConnAckData × Counts))
      → Reads others
      → Reads (conn_ack_number settings s prop others)
  unfolding conn_ack_number
  Reads-conn_ack_number s prop others h = search (properties) depth 40 fits 4000

  pub Reads-conn_ack_property :
      (s : ConnAckData × Counts) (prop : ℕ) → Reads (conn_ack_property settings s prop)
  unfolding conn_ack_property
  Reads-conn_ack_property s prop = search (properties, Reads-conn_ack_number) depth 40
