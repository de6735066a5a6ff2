-- ===== src/Session/Agreement.antt =====
-- session.cpp: the ids of the queued publishes and the ids in use.
use flash_mq.Base.{
  ℕ, ◌<◌, ◌≡◌, refl, sym, ◌∙◌, Bool, true, false, ◌||◌, ◌&&◌, [], ◌∷◌, ◌++◌, ◌==◌, if◌then◌else◌,
  Option, none, some, arith, Bool-cases, inl, inr,
}
use flash_mq.Base.Int.{pos, ltb_ℤ}
use flash_mq.UsedIds.{contains, num_values}
use flash_mq.QosData.{
  QosData, increase_flow_control_quota, mark_qos_log_printed, get_next_packet_id,
}
use flash_mq.QosData.NextId.{Claimed, Next, get_next_packet_id-Next}
use flash_mq.QosQueue.{Publish, QosPublishQueue, queue_publish, erase, size}
use flash_mq.QosQueue.Fifo.{Fifo, has_id, drop_id, Represents}
use flash_mq.QosQueue.Spec.{erase-Represents, queue_publish-Represents}
use flash_mq.Session.{Session, clear_qos_message, store_publish, store_with}
use flash_mq.Session.Drops.{
  Agrees, Agrees-any, Agrees-dropped, Agrees-absent, contains-increase_flow_control_quota,
}

-- Whether the id of a publish that stays in the queue is lost.
abbrev pub Remains : Bool → Session → Fifo → ℕ → Type 0
Remains true s l packet_id = contains s.qos.used_ids packet_id ≡ false
Remains false s l packet_id = Agrees s l

Remains-unqueued :
    (s : Session) (l : Fifo) (packet_id : ℕ) (d ends : Bool)
    → Agrees s l
    → packet_id < num_values
    → Remains
        (ends && has_id packet_id l)
        (record s {
          qos = if ends && true then increase_flow_control_quota packet_id s.qos else s.qos;
          destroy_on_disconnect = d;
        })
        l
        packet_id
Remains-unqueued s l packet_id d false a small = Agrees-any s l d a
Remains-unqueued s l packet_id d true a small = elim (Bool-cases (has_id packet_id l)) [
  | inl queued ↦ rw (queued) (contains-increase_flow_control_quota s packet_id a.valid small)
  | inr out ↦
      let given = record s { qos = increase_flow_control_quota packet_id s.qos } in
      rw (out) (Agrees-any given l d (Agrees-absent s l packet_id a small out))
]

-- What clearing a publish comes to, in a session that outlives its connection and in one that does
-- not.
abbrev pub Cleared : Bool → Session → Fifo → ℕ → Bool → Session × Bool → Type 0
Cleared false s l packet_id ends (s', found_it) =
    Agrees s' (drop_id packet_id l) × (found_it ≡ has_id packet_id l)
Cleared true s l packet_id ends (s', found_it) =
    (s'.queue ≡ s.queue) × (found_it ≡ true) × Remains (ends && has_id packet_id l) s' l packet_id

-- Where the queue and the ids in use agree, `clearQosMessage` of a session that outlives its
-- connection takes the id out of the queue, keeps the agreement, so that an id that it gives back is
-- that of no queued publish, and says whether the id was queued. A session that ends with its
-- connection keeps its queue, and the result is true; the agreement is kept unless the handshake ends
-- for an id that is queued, as it can be when the session became one that ends with its connection
-- later: then the id is given back while its publish still is queued.
pub clear_qos_message-Cleared :
    (s : Session) (l : Fifo) (packet_id : ℕ) (qos_handshake_ends : Bool)
    → Agrees s l
    → packet_id < num_values
    → Cleared s.destroy_on_disconnect s l packet_id qos_handshake_ends
        (clear_qos_message packet_id qos_handshake_ends s)
unfolding clear_qos_message
clear_qos_message-Cleared s l packet_id ends a small = elim (Bool-cases s.destroy_on_disconnect) [
  | inr lasting ↦
      let (r, result) = erase-Represents s.queue l packet_id a.stands in
      let kept = Agrees-dropped s l packet_id _ (ends && (erase packet_id s.queue).1) a small r in
      rw (lasting) (Agrees-any _ (drop_id packet_id l) false kept, result)
  | inl ending ↦ rw (ending) (refl, refl, Remains-unqueued s l packet_id true ends a small)
]

has_id-snoc :
    (j id : ℕ) (publish : Publish) (l : Fifo)
    → has_id j (l ++ (id, publish) ∷ []) ≡ (has_id j l || id == j)
has_id-snoc j id publish [] = ground arith
has_id-snoc j id publish ((i, b) ∷ l) = ground (arith, has_id-snoc j id publish l)

-- What storing a publish can come to.
abbrev pub Stored : Publish → Session → Fifo → Option (Session × Option ℕ) → Type 0
Stored publish s l none = Unit
Stored publish s l (some (s', none)) =
    Agrees s' l × (s'.destroy_on_disconnect ≡ s.destroy_on_disconnect)
Stored publish s l (some (s', some id)) =
    (has_id id l ≡ false)
    × Agrees s' (if s.destroy_on_disconnect then l else l ++ (id, publish) ∷ [])
    × (s'.destroy_on_disconnect ≡ s.destroy_on_disconnect)

-- An id that is not in use is not queued.
unused :
    (s : Session) (l : Fifo) (id : ℕ)
    → Agrees s l
    → contains s.qos.used_ids id ≡ false
    → has_id id l ≡ false
unused s l id a f = elim (Bool-cases (has_id id l)) [
  | inl h ↦ let u = a.used id h in ground arith
  | inr h ↦ h
]

abbrev FromClaim : ℕ → Fifo → Fifo → Type 0
FromClaim id l l' = (j : ℕ) → has_id j l' ≡ true → (has_id j l || id == j) ≡ true

Agrees-Claimed :
    (s : Session) (l l' : Fifo) (id : ℕ) (q : QosData) (queue : QosPublishQueue)
    → Agrees s l
    → Claimed s.qos id q
    → Represents queue l'
    → FromClaim id l l'
    → Agrees (record s { qos = q; queue = queue }) l'
Agrees-Claimed s l l' id q queue a c r from =
    let known : (j : ℕ) → has_id j l' ≡ true → (j < num_values) × (contains q.used_ids j ≡ true) =
      λ j h. elim (Bool-cases (id == j)) [
        | inl e ↦
            let i : id ≡ j = ground arith in
            let lt : j < num_values = rw (sym i) c.small in (lt, c.marked j lt ∙ rw (e) refl)
        | inr e ↦
            let old : has_id j l ≡ true = or_false (has_id j l) (id == j) e (from j h) in
            let lt = a.small j old in (lt, c.marked j lt ∙ rw (e) (a.used j old))
      ] in
    record {
      stands = r;
      valid = c.valid;
      small = λ j h. (known j h).0;
      used = λ j h. (known j h).1;
    }
  where
    or_false : (x y : Bool) → y ≡ false → (x || y) ≡ true → x ≡ true
    or_false true y e h = refl
    or_false false y e h = ground arith

marked-Agrees :
    (s : Session) (l : Fifo) (q : QosData)
    → q ≡ s.qos
    → Agrees s l
    → Agrees (record s { qos = mark_qos_log_printed q }) l
unfolding mark_qos_log_printed
marked-Agrees s l q same a = record {
  stands = a.stands;
  valid = rw (same) a.valid;
  small = a.small;
  used = rw (same) a.used;
}

store_with-Stored :
    (publish : Publish) (s : Session) (l : Fifo) (r : Option (QosData × Option ℕ))
    → Agrees s l
    → Next s.qos r
    → Stored publish s l (store_with publish s r)
store_with-Stored publish s l none a n = tt
store_with-Stored publish s l (some (q, none)) a (same, _) = (marked-Agrees s l q same a, refl)
store_with-Stored publish s l (some (q, some id)) a c =
    let free = unused s l id a c.was_free in
    let queue' = if s.destroy_on_disconnect then s.queue else queue_publish publish id s.queue in
    let l' = if s.destroy_on_disconnect then l else l ++ (id, publish) ∷ [] in
    let r : Represents queue' l' = elim (Bool-cases s.destroy_on_disconnect) [
      | inl d ↦ rw (d) a.stands
      | inr d ↦ rw (d) (queue_publish-Represents s.queue l id publish a.stands free)
    ] in
    let from : FromClaim id l l' = λ j. elim (Bool-cases s.destroy_on_disconnect) [
      | inl d ↦ rw (d) (λ h. rw (h) refl)
      | inr d ↦ rw (d) (λ h. sym (has_id-snoc j id publish l) ∙ h)
    ] in
    (free, Agrees-Claimed s l l' id q queue' a c r from, refl)

-- Where the part of `writePacket` for QoS above 0 ends, it keeps the agreement of the queue with the
-- ids in use: either no id was given and the queue is as it was, or the id that was given is not
-- that of a queued publish, and the publish is queued behind the others, unless the session ends with
-- its connection, where the queue stays as it was. Whether it does is not changed.
pub store_publish-Stored :
    (max_qos_bytes_pending : ℕ) (publish : Publish) (s : Session) (l : Fifo)
    → Agrees s l
    → s.qos.next_packet_id < num_values
    → Stored publish s l (store_publish max_qos_bytes_pending publish s)
unfolding store_publish
store_publish-Stored max_qos_bytes_pending publish s l a small =
    elim (Bool-cases
      (ltb_ℤ s.queue.qos_queue_bytes (pos max_qos_bytes_pending) || size s.queue == 0)) [
        | inl room ↦ rw (room) (
            store_with-Stored publish s l (get_next_packet_id s.qos) a
              (get_next_packet_id-Next s.qos a.valid small))
        | inr full ↦ rw (full) (marked-Agrees s l s.qos refl a, refl)
      ]
