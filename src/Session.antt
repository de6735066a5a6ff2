-- ===== src/Session.antt =====
-- session.cpp and mqttpacket.cpp: a session's packet ids together with its queue, and the handlers of
-- the acknowledgements that work on both.
pub mod Drops
pub mod Agreement
use flash_mq.Base.{
  ℕ, suc, ◌+◌, Bool, true, false, not, ◌||◌, ◌&&◌, List, [], ◌∷◌, ltb, leb, ◌==◌, if◌then◌else◌,
  Option, none, some,
}
use flash_mq.Base.Int.{ℤ, pos, ltb_ℤ}
use flash_mq.Base.Result.{Result, ok, err}
use flash_mq.Packet.{Error, protocol_error, Cursor}
use flash_mq.Parse.Header.{Header}
use flash_mq.Parse.Acks.{parse_pub_ack_data, parse_pub_rec_data, parse_pub_rel_data, parse_pub_comp}
use flash_mq.Build.{PubResponse, pub_response}
use flash_mq.QosData.{
  QosData, get_next_packet_id, mark_qos_log_printed, increase_flow_control_quota,
  remove_incoming_qos2_message_id, add_outgoing_qos2_message_id, remove_outgoing_qos2_message_id,
}
use flash_mq.QosQueue.{Publish, QosPublishQueue, queue_publish, erase, size, clear_expired_messages}

-- `qos` with its `qosPacketQueue` apart; times are in nanoseconds, but for those in the queue.
pub record Session : Type 0 where
  pub qos : QosData
  pub queue : QosPublishQueue
  pub destroy_on_disconnect : Bool
  pub last_expired_messages_at : ℕ

-- The part of `writePacket` for QoS above 0, behind the clearing of what has expired: the id that the
-- publish gets, if there is one for it. The outer `none` is the search that does not end.
abbrev pub stored : Publish → Session → QosData × Option ℕ → Session × Option ℕ
stored publish s (qos, none) = (record s { qos = mark_qos_log_printed qos }, none)
stored publish s (qos, some id) = (
  record s {
    qos = qos;
    queue = if s.destroy_on_disconnect then s.queue else queue_publish publish id s.queue;
  },
  some id,
)

abbrev pub store_with :
    Publish → Session → Option (QosData × Option ℕ) → Option (Session × Option ℕ)
store_with publish s none = none
store_with publish s (some r) = some (stored publish s r)

unfoldable pub store_publish : ℕ → Publish → Session → Option (Session × Option ℕ)
store_publish max_qos_bytes_pending publish s = store_with publish s (
    if ltb_ℤ s.queue.qos_queue_bytes (pos max_qos_bytes_pending) || size s.queue == 0
    then get_next_packet_id s.qos
    else some (s.qos, none))

abbrev pub found : Session → ℕ → QosPublishQueue × Bool
found s packet_id = if s.destroy_on_disconnect then (s.queue, true) else erase packet_id s.queue

unfoldable pub clear_qos_message : ℕ → Bool → Session → Session × Bool
clear_qos_message packet_id qos_handshake_ends s =
    let result = (found s packet_id).1 in
    (
      record s {
        queue = (found s packet_id).0;
        qos =
            if qos_handshake_ends && result
            then increase_flow_control_quota packet_id s.qos
            else s.qos;
      },
      result,
    )

abbrev pub increase_all : List ℕ → QosData → QosData
increase_all [] q = q
increase_all (id ∷ ids) q = increase_all ids (increase_flow_control_quota id q)

unfoldable pub clear_expired_messages_from_queue : ℕ → (ℕ → ℕ) → Session → Session
clear_expired_messages_from_queue now clock s =
    let cleared = clear_expired_messages clock s.queue in
    if ltb now (s.last_expired_messages_at + 1000000000) then s else record s {
      last_expired_messages_at = now;
      queue = cleared.0;
      qos = increase_all cleared.1 s.qos;
    }

-- The handlers: the session afterwards, and the response that is written to the client.
abbrev pub handled :
    {A : Type 0}
    → (A → Session × Option PubResponse)
    → Result Error (A × Cursor)
    → Result Error (Session × Option PubResponse)
handled k (err e) = err e
handled k (ok (a, q)) = ok (k a)

unfoldable pub handle_pub_ack :
    Header → Cursor → Session → Result Error (Session × Option PubResponse)
handle_pub_ack h p s =
    handled (λ packet_id. ((clear_qos_message packet_id true s).0, none)) (parse_pub_ack_data h p)

-- A reason code from 128 on ends the handshake; otherwise a PUBREL follows.
abbrev pub after_pub_rec : Header → Session → ℕ × ℕ → Session × Option PubResponse
after_pub_rec h s (packet_id, reason_code) =
    let ends = leb 128 reason_code in
    let (s', found_and_removed) = clear_qos_message packet_id ends s in
    if ends then (s', none) else (
      record s' { qos = add_outgoing_qos2_message_id packet_id s'.qos },
      some (pub_response h.protocol_version 6 (if found_and_removed then 0 else 146) packet_id),
    )

unfoldable pub handle_pub_rec :
    Header → Cursor → Session → Result Error (Session × Option PubResponse)
handle_pub_rec h p s = handled (after_pub_rec h s) (parse_pub_rec_data h p)

-- PUBREL with id 0 throws, behind the parser.
abbrev pub after_pub_rel : Header → Session → ℕ → Session × Option PubResponse
after_pub_rel h s packet_id =
    let (qos, found_and_removed) = remove_incoming_qos2_message_id packet_id s.qos in
    (
      record s { qos = qos },
      some (pub_response h.protocol_version 7 (if found_and_removed then 0 else 146) packet_id),
    )

abbrev pub positive_id : Result Error (ℕ × Cursor) → Result Error (ℕ × Cursor)
positive_id (err e) = err e
positive_id (ok (packet_id, p)) =
    if packet_id == 0 then err (protocol_error 130) else ok (packet_id, p)

unfoldable pub handle_pub_rel :
    Header → Cursor → Session → Result Error (Session × Option PubResponse)
handle_pub_rel h p s = handled (after_pub_rel h s) (positive_id (parse_pub_rel_data h p))

unfoldable pub handle_pub_comp :
    Header → Cursor → Session → Result Error (Session × Option PubResponse)
handle_pub_comp h p s =
    handled
      (λ packet_id. (record s { qos = remove_outgoing_qos2_message_id packet_id s.qos }, none))
      (parse_pub_comp h p)
