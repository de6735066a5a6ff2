-- ===== src/QosQueue/Spec.antt =====
-- qospacketqueue.cpp: the operations of the queue against a list with the oldest first.
use flash_mq.Base.{
  ℕ, ◌≡◌, refl, sym, subst, ap, ◌∙◌, true, false, [], ◌∷◌, ◌++◌, ◌==◌, none, some, arith, inl, inr,
}
use flash_mq.QosQueue.{
  Publish, Ptr, Memory, QosPublishQueue, update_at, set_next, find, assign, subtract_qos_bytes,
  erase, queue_publish, erase_from_map_and_relink_list, empty,
}
use flash_mq.QosQueue.Chain.{mem, Chain, Chain-frame}
use flash_mq.QosQueue.Relink.{Chain-add}
use flash_mq.QosQueue.Fifo.{Fifo, has_id, drop_id, contents, holder, total, footprint, Represents}
use flash_mq.QosQueue.Lookups.{
  find-assign, unique_keys-assign, contents-frame, set_next-SamePayload, holder_cases,
}
use flash_mq.QosQueue.Refine.{Represents-without}
use flash_mq.QosQueue.Snoc.{
  last_or-snoc, distinct-snoc, contents-snoc, unique_ids-snoc, total-snoc, holder-snoc, placed,
  linked, placed_other, placed_self, older, outside, old-snoc, pos_add, tail-snoc,
  queue_publish_lem,
}

erase_absent : (id : ℕ) (q : QosPublishQueue) → find id q.queue ≡ none → erase id q ≡ (q, false)
unfolding erase
erase_absent id q h = rw (erase, h) refl

pub erase_found :
    (id : ℕ) (p : Ptr) (q : QosPublishQueue)
    → find id q.queue ≡ some p
    → erase id q ≡ (erase_from_map_and_relink_list id p (subtract_qos_bytes p q), true)
unfolding erase
erase_found id p q h = rw (erase, h) refl

-- On a queue that stands for the list `l`, `erase` of a packet id finds it exactly when `l` has it,
-- and leaves a queue that stands for `l` without it: the links, the map, the ends and the bytes
-- agree again.
pub erase-Represents :
    (q : QosPublishQueue) (l : Fifo) (id : ℕ)
    → Represents q l
    → Represents (erase id q).0 (drop_id id l) × ((erase id q).1 ≡ has_id id l)
erase-Represents q l id r = elim (holder_cases q.memory r.nodes id) [
  | inl (n, h, d) ↦
      let absent = r.entries id ∙ n in
      let d' : drop_id id l ≡ l = rw (sym r.holds) d in
      let h' : has_id id l ≡ false = rw (sym r.holds) h in
      rw (erase_absent id q absent, d') (r, sym h')
  | inr (front, p, back, e, n, i, h, d) ↦
      let there = r.entries id ∙ n in
      rw (erase_found id p q there) (
        Represents-without q l r id front p back e i (rw (sym r.holds) d),
        sym (rw (sym r.holds) h),
      )
]

pub empty-Represents : (m : Memory) → Represents (empty m) []
unfolding find
empty-Represents m = record {
  nodes = [];
  links = tt;
  unique = refl;
  head = refl;
  tail = refl;
  entries = λ id. refl;
  keys = refl;
  old = λ x h. ground arith;
  holds = refl;
  ids = refl;
  bytes = refl;
}

-- `queuePublish` with an id that is not queued puts the publish behind the others: the queue that
-- stood for the list `l` stands for `l` with the id and the publish at the end.
pub queue_publish-Represents :
    (q : QosPublishQueue) (l : Fifo) (id : ℕ) (publish : Publish)
    → Represents q l
    → has_id id l ≡ false
    → Represents (queue_publish publish id q) (l ++ (id, publish) ∷ [])
queue_publish-Represents q l id publish r new =
    let p = q.fresh in
    let m₂ = placed publish id q in
    let m₃ = linked publish id q in
    let apart : (x : Ptr) → mem x r.nodes ≡ true → (x == p) ≡ false =
      λ x i. older x p (r.old x i) in
    let out : mem p r.nodes ≡ false = outside p r.nodes apart in
    let self = placed_self publish id q in
    let framed =
      Chain-frame q.memory m₂ none none r.nodes
        (λ x i. (
          ap (λ n. n.prev) (placed_other publish id q x (apart x i)),
          ap (λ n. n.next) (placed_other publish id q x (apart x i)),
        ))
        r.links in
    let (es, same_queue) = queue_publish_lem publish id q in
    let other = λ (x : Ptr) (i : mem x r.nodes ≡ true). placed_other publish id q x (apart x i) in
    let (c₂, h₂) =
      contents-frame q.memory m₂ r.nodes
        (λ x i. (ap (λ n. n.packet_id) (other x i), ap (λ n. n.publish) (other x i))) in
    let (c₃, h₃) =
      contents-frame m₂ m₃ (r.nodes ++ p ∷ []) (λ x i. set_next-SamePayload q.head (some p) m₂ x) in
    let self_id : (m₂ p).packet_id ≡ id = ap (λ n. n.packet_id) self in
    let none_yet : has_id (m₂ p).packet_id (contents m₂ r.nodes) ≡ false =
      rw (self_id, c₂, r.holds) new in
    let found : (j : ℕ) → find j (assign id p q.queue) ≡ holder m₃ (r.nodes ++ p ∷ []) j = λ j.
      find-assign id j p q.queue
      ∙ rw (r.entries j, h₃ j, holder-snoc m₂ r.nodes p j none_yet, self_id, h₂ j) refl in
    let queued : contents m₃ (r.nodes ++ p ∷ []) ≡ l ++ (id, publish) ∷ [] =
      c₃ ∙ contents-snoc m₂ r.nodes p ∙ rw (c₂, r.holds, self_id, ap (λ n. n.publish) self) refl in
    let chain : Chain m₃ none (r.nodes ++ p ∷ []) none =
      subst (λ o. Chain (update_at o (set_next (some p)) m₂) none (r.nodes ++ p ∷ []) none)
        (sym r.head)
        (Chain-add m₂ none r.nodes p (ap (λ n. n.prev) self ∙ r.head) (ap (λ n. n.next) self) out
          refl r.unique framed) in
    subst (λ t. Represents t (l ++ (id, publish) ∷ [])) (sym same_queue)
      (record {
        nodes = r.nodes ++ p ∷ [];
        links = chain;
        unique = distinct-snoc r.nodes p r.unique out;
        head = sym (last_or-snoc none r.nodes p);
        tail = rw (r.tail) (tail-snoc r.nodes p);
        entries = found;
        keys = unique_keys-assign id p q.queue r.keys;
        old = λ x i. old-snoc p r.nodes r.old x i;
        holds = queued;
        ids = unique_ids-snoc l id publish r.ids new;
        bytes = rw (r.bytes, total-snoc l id publish) (pos_add (total l) (footprint publish));
      })
