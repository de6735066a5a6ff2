-- ===== src/QosQueue/Refine.antt =====
-- qospacketqueue.cpp: `queuePublish`, `erase` and `getTail` as operations on the list of what is queued.
use flash_mq.Base.{
  ℕ, ◌+◌, ◌≡◌, refl, sym, subst, ap, ◌∙◌, true, false, List, [], ◌∷◌, ◌++◌, ◌==◌, if◌then◌else◌,
  none, some, arith, Bool-cases, inl, inr,
}
use flash_mq.Base.Int.{pos, ltb_ℤ, ◌-ℤ◌}
use flash_mq.QosQueue.{
  Ptr, Memory, QosPublishQueue, same, get_approximate_memory_footprint, subtract_qos_bytes,
  erase_from_map_and_relink_list,
}
use flash_mq.QosQueue.Chain.{first_or, last_or, mem, distinct}
use flash_mq.QosQueue.Relink.{
  relink, Chain-relink, Chain-links, last_or-mem, mem-append_left, mem-append_right, mem_self,
  mem_more, distinct_head, distinct_tail, out_head, flip,
}
use flash_mq.QosQueue.Erase.{erase_lem, IsHeld}
use flash_mq.QosQueue.Fifo.{
  Fifo, has_id, drop_id, unique_ids, contents, holder, total, footprint, Represents, head_without,
  tail_without, mem-without, distinct-without,
}
use flash_mq.QosQueue.Lookups.{
  find-remove, unique_keys-remove, contents-frame, relink-SamePayload, holder_self, has_id-contents,
  unique_head,
}

holder-none :
    (m : Memory) (xs : List Ptr) (id : ℕ)
    → has_id id (contents m xs) ≡ false
    → holder m xs id ≡ none
holder-none m [] id h = refl
holder-none m (x ∷ xs) id h =
    let other : ((m x).packet_id == id) ≡ false = ground arith in
    rw (other) (holder-none m xs id (rw (other) at h))

mem_middle : (xs : List Ptr) (p : Ptr) (ys : List Ptr) → mem p (xs ++ p ∷ ys) ≡ true
mem_middle [] p ys = mem_self p ys
mem_middle (x ∷ xs) p ys = mem_more p x (xs ++ p ∷ ys) (mem_middle xs p ys)

has_id_ne : (i j : ℕ) (l : Fifo) → has_id i l ≡ false → has_id j l ≡ true → (i == j) ≡ false
has_id_ne i j [] h g = ground arith
has_id_ne i j (e ∷ l) h g = ground (arith, has_id_ne i j l)

holder-without :
    (m : Memory) (xs : List Ptr) (p : Ptr) (ys : List Ptr) (j : ℕ)
    → unique_ids (contents m (xs ++ p ∷ ys)) ≡ true
    → holder m (xs ++ ys) j ≡ (if (m p).packet_id == j then none else holder m (xs ++ p ∷ ys) j)
holder-without m [] p ys j u =
    let (out, _) = unique_head ((m p).packet_id, (m p).publish) (contents m ys) u in
    elim (Bool-cases ((m p).packet_id == j)) [
      | inl e ↦
          let i : (m p).packet_id ≡ j = ground arith in rw (e) (holder-none m ys j (rw (i) at out))
      | inr e ↦ rw (e) refl
    ]
holder-without m (x ∷ xs) p ys j u =
    let (out, u') = unique_head ((m x).packet_id, (m x).publish) (contents m (xs ++ p ∷ ys)) u in
    let there = has_id-contents m p (xs ++ p ∷ ys) (mem_middle xs p ys) in
    let ne = has_id_ne (m x).packet_id (m p).packet_id (contents m (xs ++ p ∷ ys)) out there in
    elim (Bool-cases ((m x).packet_id == j)) [
      | inl e ↦
          let i : (m x).packet_id ≡ j = ground arith in
          let other : ((m p).packet_id == j) ≡ false = ground arith in rw (e, other) refl
      | inr e ↦ rw (e) (holder-without m xs p ys j u')
    ]

has_id-drop_id : (id j : ℕ) (l : Fifo) → has_id j l ≡ false → has_id j (drop_id id l) ≡ false
has_id-drop_id id j [] h = refl
has_id-drop_id id j ((i, publish) ∷ l) h = ground (arith, has_id-drop_id id j l)

unique_ids-drop_id : (id : ℕ) (l : Fifo) → unique_ids l ≡ true → unique_ids (drop_id id l) ≡ true
unique_ids-drop_id id [] u = refl
unique_ids-drop_id id ((i, publish) ∷ l) u =
    ground (arith, unique_ids-drop_id id l, has_id-drop_id id i l)

total_middle :
    (m : Memory) (xs : List Ptr) (p : Ptr) (ys : List Ptr)
    → total (contents m (xs ++ p ∷ ys)) ≡ footprint (m p).publish + total (contents m (xs ++ ys))
total_middle m [] p ys = refl
total_middle m (x ∷ xs) p ys = omega (arith, total_middle m xs p ys)

bytes_left :
    (f n : ℕ)
    → (let left = pos (f + n) -ℤ pos f in (if ltb_ℤ left (pos 0) then pos 0 else left) ≡ pos n)
unfolding ◌-ℤ◌
bytes_left f n = ground arith

-- The ends of a list next to a node that the map holds.
module _ (q : QosPublishQueue) (l : Fifo) (r : Represents q l) where
  held : (x : Ptr) → mem x r.nodes ≡ true → IsHeld q.queue (some x)
  held x i = (
    (q.memory x).packet_id,
    r.entries (q.memory x).packet_id ∙ holder_self q.memory x r.nodes (rw (r.holds) r.ids) i,
  )

  held_last : (xs ys : List Ptr) → r.nodes ≡ xs ++ ys → IsHeld q.queue (last_or none xs)
  held_last [] ys e = tt
  held_last (x ∷ xs) ys e =
      let (last, same_last, i) = last_or-mem none x xs in
      rw (same_last) (held last (rw (e) (mem-append_left last (x ∷ xs) ys i)))

  held_first :
      (xs : List Ptr) (p : Ptr) (ys : List Ptr)
      → r.nodes ≡ xs ++ p ∷ ys
      → IsHeld q.queue (first_or none ys)
  held_first xs p [] e = tt
  held_first xs p (y ∷ ys) e = held y (rw (e) (mem-without y xs p (y ∷ ys) (mem_middle xs y ys)))

last_apart :
    (xs : List Ptr) (p : Ptr) (ys : List Ptr)
    → distinct (xs ++ p ∷ ys) ≡ true
    → same (last_or none xs) p ≡ false
last_apart [] p ys d = refl
last_apart (x ∷ xs) p ys d =
    let (last, e, i) = last_or-mem none x xs in rw (e) (outside last (x ∷ xs) d i)
  where
    outside :
        (z : Ptr) (zs : List Ptr)
        → distinct (zs ++ p ∷ ys) ≡ true
        → mem z zs ≡ true
        → (z == p) ≡ false
    outside z [] d i = ground arith
    outside z (y ∷ zs) d i = elim (Bool-cases (y == z)) [
      | inl e ↦
          let here : y ≡ z = ground arith in
          let out = mem-append_right y zs (p ∷ ys) (distinct_head y (zs ++ p ∷ ys) d) in
          rw (sym here) (flip p y (out_head y p ys out))
      | inr e ↦ outside z zs (distinct_tail y (zs ++ p ∷ ys) d) (rw (e) at i)
    ]

first_apart :
    (xs : List Ptr) (p : Ptr) (ys : List Ptr)
    → distinct (xs ++ p ∷ ys) ≡ true
    → same (first_or none ys) p ≡ false
first_apart [] p [] d = refl
first_apart [] p (y ∷ ys) d = out_head p y ys (distinct_head p (y ∷ ys) d)
first_apart (x ∷ xs) p ys d = first_apart xs p ys (distinct_tail x (xs ++ p ∷ ys) d)

-- The node `p` of an id is taken out of the list and the map, and its bytes are given back.
pub Represents-without :
    (q : QosPublishQueue) (l : Fifo) (r : Represents q l) (id : ℕ) (xs : List Ptr) (p : Ptr)
    (ys : List Ptr)
    → r.nodes ≡ xs ++ p ∷ ys
    → (q.memory p).packet_id ≡ id
    → drop_id id l ≡ contents q.memory (xs ++ ys)
    → Represents (erase_from_map_and_relink_list id p (subtract_qos_bytes p q)) (drop_id id l)
unfolding subtract_qos_bytes get_approximate_memory_footprint
Represents-without q l r id xs p ys e i d =
    let links = rw (e) at r.links in
    let unique = rw (e) at r.unique in
    let (hp, hn) = Chain-links q.memory none xs p ys links in
    let prev = last_or none xs in
    let next = first_or none ys in
    let payload = relink-SamePayload prev next q.memory in
    let (same_contents, same_holder) =
      contents-frame q.memory (relink prev next q.memory) (xs ++ ys) (λ x _. payload x) in
    let ids' : unique_ids (contents q.memory (xs ++ p ∷ ys)) ≡ true = rw (sym e, r.holds) r.ids in
    let n = total (contents q.memory (xs ++ ys)) in
    let all_bytes : q.qos_queue_bytes ≡ pos (footprint (q.memory p).publish + n) =
      r.bytes ∙ ap (λ (k : ℕ). pos k) (rw (sym r.holds, e) (total_middle q.memory xs p ys)) in
    subst (λ t. Represents t (drop_id id l))
      (sym (
        erase_lem (subtract_qos_bytes p q) id p prev next hp hn (held_last q l r xs (p ∷ ys) e)
          (held_first q l r xs p ys e) (last_apart xs p ys unique) (first_apart xs p ys unique)))
      (record {
        nodes = xs ++ ys;
        links = Chain-relink q.memory none xs p ys (λ x _. refl) unique links;
        unique = distinct-without xs p ys unique;
        head = rw (r.head, e) (head_without none xs p ys unique);
        tail = rw (r.tail, e) (tail_without xs p ys unique);
        entries = λ j.
            find-remove id j q.queue r.keys
            ∙ rw (r.entries j, e, sym i) (sym (holder-without q.memory xs p ys j ids'))
            ∙ sym (same_holder j);
        keys = unique_keys-remove id q.queue r.keys;
        old = λ x h. r.old x (rw (e) (mem-without x xs p ys h));
        holds = same_contents ∙ sym d;
        ids = unique_ids-drop_id id l r.ids;
        bytes = rw (all_bytes, d) (bytes_left (footprint (q.memory p).publish) n);
      })
