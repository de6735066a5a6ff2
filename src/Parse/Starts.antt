-- ===== src/Parse/Starts.antt =====
-- mqttpacket.cpp: the parsers, each from behind the fixed header.

use flash_mq.Base.{
  ℕ, zero, suc, ◌+◌, ◌≤◌, ◌<◌, refl, Bool, true, false, List, [], ◌∷◌, ◌++◌, length, leb, arith,
  Bool-cases, inl, inr, Option, none, some,
}
use flash_mq.Base.Text.{Text, codes}
use flash_mq.Base.Result.{ok}
use flash_mq.Packet.{Error, Cursor, remaining_after_pos}
use flash_mq.Parse.{
  Reader, ◌>>◌, throw_if, Settings, disconnect_with_error, downgrade, drop, enabled,
  enabled_without_persistence, enabled_without_retaining, RetainedMessagesMode,
}
use flash_mq.Parse.Header.{Header, set_pos_to_data_start}
use flash_mq.Parse.Acks.{
  parse_sub_ack_data, parse_pub_ack_data, parse_pub_rec_data, parse_pub_rel_data, parse_pub_comp,
  sub_ack_codes_loop,
}
use flash_mq.Parse.Control.{parse_auth_data, parse_disconnect_data}
use flash_mq.Parse.Publish.{Publisher, PublishData, get_payload_view, parse_publish_data}
use flash_mq.Parse.Connect.{ConnectData, parse_version, parse_flags, parse_connect_properties}
use flash_mq.Parse.Connect.Will.{
  retained_will, parse_will, parse_username, check_username, parse_connect_data,
}
use flash_mq.Parse.ConnAck.{parse_conn_ack_data}
use flash_mq.Parse.Reads.{
  Within, Reads, further, reads, IsThrown, protocol_error-IsThrown, read_byte_cases, Reads-pure,
  Reads-throw,
}
use flash_mq.Parse.Ends.{properties}
use flash_mq.Parse.Total.{
  Reads-sub_ack_property, Reads-auth_property, Reads-disconnect_property, Reads-publish_property,
  Reads-connect_property, Reads-will_property, Reads-conn_ack_property, Reads-from,
  marked_version-OnlyThrows, validate_first_byte_lsb-OnlyThrows,
}

-- A parser that starts behind the fixed header.
record Starts {A : Type 0} (h : Header) (m : Reader A) : Type 0 where
  within :
      (p : Cursor)
      → h.fixed_header_length ≤ length p.bites
      → Within h.fixed_header_length p.bites (m p)

Starts-throw_if :
    {A : Type 0} (h : Header) (b : Bool) (e : Error) (m : Reader A)
    → IsThrown e
    → Starts h m
    → Starts h (throw_if b e >> m)
Starts-throw_if h true e m thrown s = record { within = λ p inside. thrown }
Starts-throw_if h false e m thrown s = record { within = λ p inside. s.within p inside }

Starts-set_pos :
    {A : Type 0} (h : Header) (m : Reader A) → Reads m → Starts h (set_pos_to_data_start h >> m)
unfolding set_pos_to_data_start
Starts-set_pos h m r = record {
  within = λ p inside. r.within (record p { pos = h.fixed_header_length }) inside;
}

ruleset parsers = (properties, Starts-throw_if, Starts-set_pos)

Starts-parse_pub_ack_data : (h : Header) → Starts h (parse_pub_ack_data h)
unfolding parse_pub_ack_data
Starts-parse_pub_ack_data h = search (parsers) depth 12

Starts-parse_pub_rec_data : (h : Header) → Starts h (parse_pub_rec_data h)
unfolding parse_pub_rec_data
Starts-parse_pub_rec_data h = search (parsers) depth 12

Starts-parse_pub_rel_data : (h : Header) → Starts h (parse_pub_rel_data h)
unfolding parse_pub_rel_data
Starts-parse_pub_rel_data h = search (parsers) depth 12

Starts-parse_pub_comp : (h : Header) → Starts h (parse_pub_comp h)
unfolding parse_pub_comp
Starts-parse_pub_comp h = search (parsers) depth 12

Starts-parse_auth_data : (settings : Settings) (h : Header) → Starts h (parse_auth_data settings h)
unfolding parse_auth_data
Starts-parse_auth_data settings h = search (parsers, Reads-auth_property) depth 20

Starts-parse_disconnect_data :
    (settings : Settings) (h : Header) → Starts h (parse_disconnect_data settings h)
unfolding parse_disconnect_data
Starts-parse_disconnect_data settings h = search (parsers, Reads-disconnect_property) depth 20

Starts-parse_conn_ack_data :
    (settings : Settings) (h : Header) → Starts h (parse_conn_ack_data settings h)
unfolding parse_conn_ack_data
Starts-parse_conn_ack_data settings h = search (parsers, Reads-conn_ack_property) depth 20

Reads-remaining : Reads (λ p. ok (remaining_after_pos p, p))
Reads-remaining = record { within = λ p inside. (refl, omega arith, inside) }

Reads-get_payload_view : (d : PublishData) → Reads (get_payload_view d)
unfolding get_payload_view
Reads-get_payload_view d = record { within = λ p inside. (refl, omega arith, inside) }

Starts-parse_publish_data :
    (settings : Settings) (sender : Publisher) (h : Header)
    → Starts h (parse_publish_data settings sender h)
unfolding parse_publish_data
Starts-parse_publish_data settings sender h =
    search (parsers, Reads-publish_property, Reads-remaining, Reads-get_payload_view) depth 30 fits
      4000

module _ (settings : Settings) where
  Reads-parse_version : (h : Header) → Reads (parse_version settings h)
  unfolding parse_version
  Reads-parse_version h =
      search (reads, Reads-from, marked_version-OnlyThrows, validate_first_byte_lsb-OnlyThrows)
        depth 20

  Reads-parse_flags : (d : ConnectData) → Reads (parse_flags d)
  unfolding parse_flags
  Reads-parse_flags d = search (reads) depth 20

  Reads-parse_connect_properties : (d : ConnectData) → Reads (parse_connect_properties settings d)
  unfolding parse_connect_properties
  Reads-parse_connect_properties d = search (properties, Reads-connect_property) depth 20

  Reads-retained_will :
      (mode : RetainedMessagesMode) (d : ConnectData) → Reads (retained_will mode d)
  Reads-retained_will enabled d = Reads-pure _
  Reads-retained_will enabled_without_persistence d = Reads-pure _
  Reads-retained_will enabled_without_retaining d = Reads-pure _
  Reads-retained_will downgrade d = Reads-pure _
  Reads-retained_will drop d = Reads-pure _
  Reads-retained_will disconnect_with_error d = Reads-throw _ (protocol_error-IsThrown 154)

  Reads-parse_will : (d : ConnectData) → Reads (parse_will settings d)
  unfolding parse_will
  Reads-parse_will d =
      search (properties, Reads-will_property, Reads-retained_will) depth 30 fits 4000

  Reads-parse_username : Reads (parse_username settings)
  unfolding parse_username
  Reads-parse_username = search (reads) depth 20

  Reads-check_username : (name : Option Text) → Reads (check_username settings name)
  Reads-check_username none = Reads-pure tt
  Reads-check_username (some name) = search (reads) depth 20

  Starts-parse_connect_data : (h : Header) → Starts h (parse_connect_data settings h)
  unfolding parse_connect_data
  Starts-parse_connect_data h =
      search
        (
          parsers, Reads-parse_version, Reads-parse_flags, Reads-parse_connect_properties,
          Reads-parse_will, Reads-parse_username, Reads-check_username,
        )
        depth 40 fits 4000

  sub_ack_codes_loop-Within :
      (fuel : ℕ) (codes : List ℕ) (p : Cursor)
      → p.pos ≤ length p.bites
      → length p.bites < fuel + p.pos
      → Within p.pos p.bites (sub_ack_codes_loop fuel codes p)
  unfolding sub_ack_codes_loop
  sub_ack_codes_loop-Within zero codes p inside enough = absurd (omega arith)
  sub_ack_codes_loop-Within (suc fuel) codes p inside enough =
      elim (Bool-cases (leb (length p.bites) p.pos)) [
        | inl done ↦ rw (done) (refl, omega arith, inside)
        | inr more ↦ elim (read_byte_cases p) [
          | inl short ↦ rw (more, short) (protocol_error-IsThrown 129)
          | inr (b, e, room) ↦
              rw (more, e)
                (let q : Cursor = record p { pos = p.pos + 1 } in
                  further p.pos p.bites q _ refl (omega arith)
                    (sub_ack_codes_loop-Within fuel (codes ++ b ∷ []) q room (omega arith)))
        ]
      ]

  Reads-sub_ack_codes_loop : Reads (λ p. sub_ack_codes_loop (suc (length p.bites)) [] p)
  Reads-sub_ack_codes_loop = record {
    within = λ p inside. sub_ack_codes_loop-Within (suc (length p.bites)) [] p inside (omega arith);
  }

  Starts-parse_sub_ack_data : (h : Header) → Starts h (parse_sub_ack_data settings h)
  unfolding parse_sub_ack_data
  Starts-parse_sub_ack_data h =
      search (parsers, Reads-sub_ack_property, Reads-sub_ack_codes_loop) depth 30

-- Each parser, run on a packet whose fixed header is inside it, terminates within the fuel of its
-- loops: it returns with the packet unchanged and the position between the end of the fixed header
-- and the end of the packet, or it throws one of the errors that the code has.
pub parsers-Within :
    (settings : Settings) (sender : Publisher) (h : Header) (p : Cursor)
    → h.fixed_header_length ≤ length p.bites
    → Within h.fixed_header_length p.bites (parse_connect_data settings h p)
      × Within h.fixed_header_length p.bites (parse_conn_ack_data settings h p)
      × Within h.fixed_header_length p.bites (parse_publish_data settings sender h p)
      × Within h.fixed_header_length p.bites (parse_pub_ack_data h p)
      × Within h.fixed_header_length p.bites (parse_pub_rec_data h p)
      × Within h.fixed_header_length p.bites (parse_pub_rel_data h p)
      × Within h.fixed_header_length p.bites (parse_pub_comp h p)
      × Within h.fixed_header_length p.bites (parse_sub_ack_data settings h p)
      × Within h.fixed_header_length p.bites (parse_disconnect_data settings h p)
      × Within h.fixed_header_length p.bites (parse_auth_data settings h p)
parsers-Within settings sender h p inside = (
  (Starts-parse_connect_data settings h).within p inside,
  (Starts-parse_conn_ack_data settings h).within p inside,
  (Starts-parse_publish_data settings sender h).within p inside,
  (Starts-parse_pub_ack_data h).within p inside,
  (Starts-parse_pub_rec_data h).within p inside,
  (Starts-parse_pub_rel_data h).within p inside,
  (Starts-parse_pub_comp h).within p inside,
  (Starts-parse_sub_ack_data settings h).within p inside,
  (Starts-parse_disconnect_data settings h).within p inside,
  (Starts-parse_auth_data settings h).within p inside,
)
