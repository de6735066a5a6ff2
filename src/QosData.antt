-- ===== src/QosData.antt =====
-- `Session::QoSData` of session.h and session.cpp without its queue: packet ids, flow control, and
-- the ids of QoS 2 messages in transit.
pub mod NextId
pub mod Flow
use flash_mq.Base.{
  ℕ, zero, suc, ◌+◌, ◌-◌, ◌%◌, Bool, true, false, not, ◌&&◌, ◌||◌, List, [], ◌∷◌, Option, none,
  some, any, ltb, leb, ◌==◌, if◌then◌else◌,
}
use flash_mq.Base.Int.{ℤ, pos, negsuc, ◌+ℤ◌, ◌-ℤ◌, ltb_ℤ}
use flash_mq.UsedIds.{UsedIds, contains, insert, erase, num_values}
use flash_mq.UsedIds
use flash_mq.UsedIds.Array.{is, remove}

-- `flowControlCealing` and `flowControlQuota` are of type `int`, the ids `uint16_t`. A
-- `std::set` of ids is a list without an id twice.
pub record QosData : Type 0 where
  pub used_ids : UsedIds
  pub next_packet_id : ℕ
  pub qos_log_printed_at_id : ℕ
  pub flow_control_cealing : ℤ
  pub flow_control_quota : ℤ
  pub incoming_qos2_message_ids : List ℕ
  pub outgoing_qos2_message_ids : List ℕ

unfoldable pub init : ℕ → QosData
init max_qos_msg_pending_per_client = record {
  used_ids = UsedIds.init;
  next_packet_id = 0;
  qos_log_printed_at_id = 0;
  flow_control_cealing = pos 65535;
  flow_control_quota = pos max_qos_msg_pending_per_client;
  incoming_qos2_message_ids = [];
  outgoing_qos2_message_ids = [];
}

abbrev pub eq_ℤ : ℤ → ℤ → Bool
eq_ℤ a b = not (ltb_ℤ a b) && not (ltb_ℤ b a)

abbrev pub min_ℤ : ℤ → ℤ → ℤ
min_ℤ a b = if ltb_ℤ b a then b else a

unfoldable pub increase_flow_control_quota : ℕ → QosData → QosData
increase_flow_control_quota packet_id q = record q {
  flow_control_quota = min_ℤ (q.flow_control_quota +ℤ pos 1) q.flow_control_cealing;
  used_ids = erase packet_id q.used_ids;
}

pub reset_flow_control_counters : ℕ → QosData → QosData
reset_flow_control_counters receive_max q = record q {
  flow_control_cealing = pos receive_max;
  flow_control_quota = pos receive_max;
}

pub flow_control_exhausted : QosData → Bool
flow_control_exhausted q = not (ltb_ℤ (pos 0) q.flow_control_quota)

pub decrease_flow_control_quota_again : QosData → QosData
decrease_flow_control_quota_again q = record q {
  flow_control_quota = q.flow_control_quota -ℤ pos 1;
}

pub release_packet_id : ℕ → QosData → QosData
release_packet_id id q = record q { used_ids = erase id q.used_ids }

-- What `sendAllPendingQosData` does to the ids and the quota for a queued publish, which it refuses
-- when it has expired or may not be sent. The second component says whether it is sent.
unfoldable pub resend : Bool → ℕ → QosData → QosData × Bool
resend refused id q =
    if refused || flow_control_exhausted q
    then (release_packet_id id q, false)
    else (decrease_flow_control_quota_again q, true)

unfoldable pub mark_qos_log_printed : QosData → QosData
mark_qos_log_printed q = record q { qos_log_printed_at_id = q.next_packet_id }

pub current_packed_id_log_printed : QosData → Bool
current_packed_id_log_printed q = q.qos_log_printed_at_id == q.next_packet_id

-- `none` is the exception.
pub load_next_packet_id : ℕ → QosData → Option QosData
load_next_packet_id id q =
    if ltb 0 q.next_packet_id then none else some (record q { next_packet_id = id })

-- `Session::resetQoSData`
unfoldable pub reset_qos_data : ℕ → QosData → QosData
unfolding init
reset_qos_data max_qos_msg_pending_per_client q = init max_qos_msg_pending_per_client

-- How the loop of `getNextPacketId` ends: with an id, by `return {}`, or not within its fuel.
pub data Search : Type 0 where
  found : ℕ → Search
  came_round : Search
  stuck : Search

abbrev pub next_id : ℕ → ℕ
next_id cur = (cur + 1) % num_values

-- `end` is the id at which the search began, `cur` the one it has reached.
pub search_loop : ℕ → UsedIds → ℕ → ℕ → Search
search_loop zero u end cur = stuck
search_loop (suc fuel) u end cur =
    let n = next_id cur in
    let rest = search_loop fuel u end n in
    if n == 0 then rest else if contains u n then rest else if n == end then came_round else found n

-- The end of `getNextPacketId`. The outer `none` is a search that does not end.
pub claim : QosData → Search → Option (QosData × Option ℕ)
claim q (found n) = some (
  record q {
    next_packet_id = n;
    flow_control_quota = q.flow_control_quota -ℤ pos 1;
    used_ids = insert n q.used_ids;
  },
  some n,
)
claim q came_round = some (q, none)
claim q stuck = none

-- The loop passes each id once, so as many rounds as there are ids are enough where one is free.
pub search : QosData → Search
search q = search_loop num_values q.used_ids q.next_packet_id q.next_packet_id

unfoldable pub get_next_packet_id : QosData → Option (QosData × Option ℕ)
unfolding claim
get_next_packet_id q =
    if eq_ℤ q.flow_control_quota (pos 0) then some (q, none) else claim q (search q)

-- The methods of `Session` that take the lock and work on the sets.
pub add_incoming_qos2_message_id : ℕ → QosData → QosData
add_incoming_qos2_message_id id q =
    if any (is id) q.incoming_qos2_message_ids
    then q
    else record q { incoming_qos2_message_ids = id ∷ q.incoming_qos2_message_ids }

pub incoming_qos2_message_id_in_transit : ℕ → QosData → Bool
incoming_qos2_message_id_in_transit id q = any (is id) q.incoming_qos2_message_ids

unfoldable pub remove_incoming_qos2_message_id : ℕ → QosData → QosData × Bool
remove_incoming_qos2_message_id id q =
    if any (is id) q.incoming_qos2_message_ids
    then (record q { incoming_qos2_message_ids = remove id q.incoming_qos2_message_ids }, true)
    else (q, false)

unfoldable pub add_outgoing_qos2_message_id : ℕ → QosData → QosData
add_outgoing_qos2_message_id id q =
    if any (is id) q.outgoing_qos2_message_ids
    then q
    else record q { outgoing_qos2_message_ids = id ∷ q.outgoing_qos2_message_ids }

unfoldable pub remove_outgoing_qos2_message_id : ℕ → QosData → QosData
unfolding increase_flow_control_quota
remove_outgoing_qos2_message_id id q =
    if any (is id) q.outgoing_qos2_message_ids
    then increase_flow_control_quota id
        (record q { outgoing_qos2_message_ids = remove id q.outgoing_qos2_message_ids })
    else q
