-- ===== src/QosData/Flow.antt =====
-- Flow control and packet ids over any history of calls.
use flash_mq.Base.{
  ℕ, ◌<◌, ◌≡◌, sym, Bool, ◌||◌, true, false, inl, inr, Option, none, some, any, arith, Bool-cases,
  subst,
}
use flash_mq.Base.Int.{ℤ, pos, ◌+ℤ◌, ◌-ℤ◌, ◌≤ℤ◌, ltb_ℤ}
use flash_mq.UsedIds.{num_values}
use flash_mq.UsedIds.Members.{IsValid, erase-Changes, init-IsValid}
use flash_mq.UsedIds.Array.{is, remove, remove-Distinct, Distinct}
use flash_mq.QosData.{
  QosData, init, increase_flow_control_quota, reset_flow_control_counters, flow_control_exhausted,
  decrease_flow_control_quota_again, release_packet_id, resend, load_next_packet_id, reset_qos_data,
  mark_qos_log_printed, get_next_packet_id, add_incoming_qos2_message_id,
  remove_incoming_qos2_message_id, add_outgoing_qos2_message_id, remove_outgoing_qos2_message_id,
  min_ℤ, eq_ℤ,
}
use flash_mq.QosData.NextId.{Next, Claimed, Refused, get_next_packet_id-Next}

-- The quota lies between 0 and the ceiling, which is a 16-bit number.
pub record Inv (q : QosData) : Type 0 where
  pub ids : IsValid q.used_ids
  pub next : q.next_packet_id < num_values
  pub ceiling : q.flow_control_cealing ≤ℤ pos 65535
  pub positive : pos 0 ≤ℤ q.flow_control_quota
  pub within : q.flow_control_quota ≤ℤ q.flow_control_cealing
  pub incoming : Distinct q.incoming_qos2_message_ids
  pub outgoing : Distinct q.outgoing_qos2_message_ids

-- What the rest of the server does to a `QoSData`. `decreaseFlowControlQuotaAgain` is called in
-- `sendAllPendingQosData` only, for each queued publish as `resend` does; an `increases` also stands for
-- each id that `clearExpiredMessagesFromQueue` removes. An id is a `uint16_t`.
pub data Step (q : QosData) : QosData → Type 0 where
  claims : {q' : QosData} (r : Option ℕ) → get_next_packet_id q ≡ some (q', r) → Step q q'
  increases : (id : ℕ) → id < num_values → Step q (increase_flow_control_quota id q)
  releases : (id : ℕ) → id < num_values → Step q (release_packet_id id q)
  resets : (n : ℕ) → n < num_values → Step q (reset_flow_control_counters n q)
  resends : (refused : Bool) (id : ℕ) → id < num_values → Step q (resend refused id q).0
  loads : {q' : QosData} (id : ℕ) → id < num_values → load_next_packet_id id q ≡ some q' → Step q q'
  renews : (n : ℕ) → n < num_values → Step q (reset_qos_data n q)
  logs : Step q (mark_qos_log_printed q)
  receives : (id : ℕ) → Step q (add_incoming_qos2_message_id id q)
  released : (id : ℕ) → Step q (remove_incoming_qos2_message_id id q).0
  sends : (id : ℕ) → Step q (add_outgoing_qos2_message_id id q)
  completes : (id : ℕ) → id < num_values → Step q (remove_outgoing_qos2_message_id id q)

pub data Reach (q : QosData) : QosData → Type 0 where
  here : Reach q q
  after : {p r : QosData} → Reach q p → Step p r → Reach q r

capped :
    (quota ceiling : ℤ)
    → pos 0 ≤ℤ quota
    → quota ≤ℤ ceiling
    → (pos 0 ≤ℤ min_ℤ (quota +ℤ pos 1) ceiling) × (min_ℤ (quota +ℤ pos 1) ceiling ≤ℤ ceiling)
unfolding ◌+ℤ◌
capped quota ceiling h g = ground arith

lowered :
    (quota ceiling : ℤ)
    → ltb_ℤ (pos 0) quota ≡ true
    → quota ≤ℤ ceiling
    → (pos 0 ≤ℤ quota -ℤ pos 1) × (quota -ℤ pos 1 ≤ℤ ceiling)
unfolding ◌-ℤ◌
lowered quota ceiling h g = ground arith

nonzero : (quota : ℤ) → pos 0 ≤ℤ quota → eq_ℤ quota (pos 0) ≡ false → ltb_ℤ (pos 0) quota ≡ true
nonzero quota h e = ground arith

increase-Inv :
    (id : ℕ) (q : QosData) → id < num_values → Inv q → Inv (increase_flow_control_quota id q)
unfolding increase_flow_control_quota
increase-Inv id q h v =
    let (positive, within) =
      capped q.flow_control_quota q.flow_control_cealing v.positive v.within in
    record {
      ids = (erase-Changes id q.used_ids v.ids h).0;
      next = v.next;
      ceiling = v.ceiling;
      positive = positive;
      within = within;
      incoming = v.incoming;
      outgoing = v.outgoing;
    }

claim-Inv : (q q' : QosData) (r : Option ℕ) → Inv q → get_next_packet_id q ≡ some (q', r) → Inv q'
claim-Inv q q' none v e =
    let refused : Refused q q' = subst (Next q) e (get_next_packet_id-Next q v.ids v.next) in
    subst Inv (sym refused.0) v
claim-Inv q q' (some n) v e =
    let c : Claimed q n q' = subst (Next q) e (get_next_packet_id-Next q v.ids v.next) in
    let (positive, within) =
      lowered q.flow_control_quota q.flow_control_cealing
        (nonzero q.flow_control_quota v.positive c.quota_left) v.within in
    record {
      ids = c.valid;
      next = rw c.next c.small;
      ceiling = rw c.ceiling v.ceiling;
      positive = rw c.quota positive;
      within = rw (c.quota, c.ceiling) within;
      incoming = rw c.incoming v.incoming;
      outgoing = rw c.outgoing v.outgoing;
    }

resend-Inv :
    (refused : Bool) (id : ℕ) (q : QosData) → id < num_values → Inv q → Inv (resend refused id q).0
unfolding resend flow_control_exhausted decrease_flow_control_quota_again release_packet_id
resend-Inv refused id q h v = elim (Bool-cases (refused || flow_control_exhausted q)) [
  | inl dropped ↦ rw (dropped) (ground (arith, (erase-Changes id q.used_ids v.ids h).0))
  | inr sent ↦ rw (sent) (ground (arith, lowered q.flow_control_quota q.flow_control_cealing))
]

load-Inv :
    (id : ℕ) (q q' : QosData)
    → id < num_values
    → Inv q
    → load_next_packet_id id q ≡ some q'
    → Inv q'
unfolding load_next_packet_id
load-Inv id q q' h v e = ground arith

init-Inv : (n : ℕ) → n < num_values → Inv (init n)
unfolding init
init-Inv n h = record {
  ids = init-IsValid.0;
  next = omega arith;
  ceiling = omega arith;
  positive = omega arith;
  within = omega arith;
  incoming = tt;
  outgoing = tt;
}

Step-Inv : {q p : QosData} → Step q p → Inv q → Inv p
unfolding release_packet_id reset_qos_data reset_flow_control_counters mark_qos_log_printed
    add_incoming_qos2_message_id remove_incoming_qos2_message_id add_outgoing_qos2_message_id
    remove_outgoing_qos2_message_id
Step-Inv {q} (claims r e) v = claim-Inv q _ r v e
Step-Inv {q} (increases id h) v = increase-Inv id q h v
Step-Inv {q} (releases id h) v = ground (arith, (erase-Changes id q.used_ids v.ids h).0)
Step-Inv {q} (resets n h) v = ground arith
Step-Inv {q} (resends refused id h) v = resend-Inv refused id q h v
Step-Inv {q} (loads id h e) v = load-Inv id q _ h v e
Step-Inv {q} (renews n h) v = init-Inv n h
Step-Inv logs v = ground arith
Step-Inv (receives id) v = ground arith
Step-Inv {q} (released id) v = ground (arith, remove-Distinct id q.incoming_qos2_message_ids)
Step-Inv (sends id) v = ground arith
Step-Inv {q} (completes id h) v = elim (Bool-cases (any (is id) q.outgoing_qos2_message_ids)) [
  | inr absent ↦ rw absent v
  | inl there ↦
      let l = remove id q.outgoing_qos2_message_ids in
      rw there (
        increase-Inv id (record q { outgoing_qos2_message_ids = l }) h
          (record {
            ids = v.ids;
            next = v.next;
            ceiling = v.ceiling;
            positive = v.positive;
            within = v.within;
            incoming = v.incoming;
            outgoing = remove-Distinct id q.outgoing_qos2_message_ids v.outgoing;
          }))
]

Reach-Inv : {q p : QosData} → Inv q → Reach q p → Inv p
Reach-Inv v here = v
Reach-Inv v (after r st) = Step-Inv st (Reach-Inv v r)

-- Over any history of the calls that the rest of the server makes of a new `QoSData`, the loading of
-- a saved session and the resending of queued publishes included, the quota of flow control stays
-- between 0 and the ceiling, which is at most 65535, the set of ids keeps its invariant, and no QoS 2
-- id is registered twice.
pub Reach-init-Inv : (n : ℕ) {q : QosData} → n < num_values → Reach (init n) q → Inv q
Reach-init-Inv n h r = Reach-Inv (init-Inv n h) r
