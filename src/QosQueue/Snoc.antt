-- ===== src/QosQueue/Snoc.antt =====
-- qospacketqueue.cpp: lists with one more at the end, and what `queuePublish` makes of the memory.
use flash_mq.Base.{
  ℕ, suc, ◌+◌, ◌<◌, ◌≡◌, refl, ap, true, false, ◌||◌, List, [], ◌∷◌, ◌++◌, ◌==◌, if◌then◌else◌,
  Option, none, some, arith, Bool-cases, inl, inr,
}
use flash_mq.Base.Int.{pos, ◌+ℤ◌}
use flash_mq.QosQueue.{
  Publish, Ptr, QueuedPublish, Memory, QosPublishQueue, update, update_at, set_prev, set_next,
  assign, get_approximate_memory_footprint, queue_publish, add_to_head_of_linked_list,
  add_to_expiration_queue, emplace,
}
use flash_mq.QosQueue.Chain.{first_or, last_or, mem, distinct}
use flash_mq.QosQueue.Relink.{mem_self, mem_more}
use flash_mq.QosQueue.Fifo.{Fifo, has_id, unique_ids, contents, holder, total, footprint}

-- A list with one more at the end.
pub last_or-snoc : (o : Option Ptr) (xs : List Ptr) (p : Ptr) → last_or o (xs ++ p ∷ []) ≡ some p
last_or-snoc o [] p = refl
last_or-snoc o (x ∷ xs) p = last_or-snoc (some x) xs p

pub distinct-snoc :
    (xs : List Ptr) (p : Ptr)
    → distinct xs ≡ true
    → mem p xs ≡ false
    → distinct (xs ++ p ∷ []) ≡ true
distinct-snoc [] p d out = refl
distinct-snoc (x ∷ xs) p d out = ground (arith, distinct-snoc xs p, mem-snoc x xs p)
  where
    mem-snoc : (z : Ptr) (zs : List Ptr) (p : Ptr) → mem z (zs ++ p ∷ []) ≡ (mem z zs || p == z)
    mem-snoc z [] p = ground arith
    mem-snoc z (y ∷ zs) p = ground (arith, mem-snoc z zs p)

pub contents-snoc :
    (m : Memory) (xs : List Ptr) (p : Ptr)
    → contents m (xs ++ p ∷ []) ≡ contents m xs ++ ((m p).packet_id, (m p).publish) ∷ []
contents-snoc m [] p = refl
contents-snoc m (x ∷ xs) p = rw (contents-snoc m xs p) refl

pub unique_ids-snoc :
    (l : Fifo) (id : ℕ) (publish : Publish)
    → unique_ids l ≡ true
    → has_id id l ≡ false
    → unique_ids (l ++ (id, publish) ∷ []) ≡ true
unique_ids-snoc [] id publish u h = refl
unique_ids-snoc ((i, b) ∷ l) id publish u h =
    ground (arith, unique_ids-snoc l id publish, has_id-snoc i l)
  where
    has_id-snoc : (j : ℕ) (k : Fifo) → has_id j (k ++ (id, publish) ∷ []) ≡ (has_id j k || id == j)
    has_id-snoc j [] = ground arith
    has_id-snoc j ((n, c) ∷ k) = ground (arith, has_id-snoc j k)

pub total-snoc :
    (l : Fifo) (id : ℕ) (publish : Publish)
    → total (l ++ (id, publish) ∷ []) ≡ total l + footprint publish
total-snoc [] id publish = omega arith
total-snoc ((i, b) ∷ l) id publish = omega (arith, total-snoc l id publish)

pub holder-snoc :
    (m : Memory) (xs : List Ptr) (p : Ptr) (j : ℕ)
    → has_id (m p).packet_id (contents m xs) ≡ false
    → holder m (xs ++ p ∷ []) j ≡ (if (m p).packet_id == j then some p else holder m xs j)
holder-snoc m [] p j h = refl
holder-snoc m (x ∷ xs) p j h = ground (arith, holder-snoc m xs p j)

add_to_expiration_queue_lem :
    (p : Ptr) (q : QosPublishQueue)
    → (es : List (ℕ × Ptr)) × (add_to_expiration_queue p q ≡ record q { queue_expirations = es })
unfolding add_to_expiration_queue
add_to_expiration_queue_lem p q = go (q.memory p).publish.expires_at
  where
    go :
        (o : Option ℕ)
        → (es : List (ℕ × Ptr)) × ((elim o [
          | none ↦ q
          | some when ↦ record q { queue_expirations = emplace when p q.queue_expirations }
        ])
            ≡ record q { queue_expirations = es })
    go none = (q.queue_expirations, refl)
    go (some when) = (emplace when p q.queue_expirations, refl)

abbrev node : Publish → ℕ → QueuedPublish
node publish id = record { publish = publish; packet_id = id; prev = none; next = none }

-- The memory when the new node has its own link, and when it is linked to.
abbrev pub placed : Publish → ℕ → QosPublishQueue → Memory
placed publish id q =
    update q.fresh (set_prev q.head) (update q.fresh (λ _. node publish id) q.memory)

abbrev pub linked : Publish → ℕ → QosPublishQueue → Memory
linked publish id q = update_at q.head (set_next (some q.fresh)) (placed publish id q)

pub placed_other :
    (publish : Publish) (id : ℕ) (q : QosPublishQueue) (x : Ptr)
    → (x == q.fresh) ≡ false
    → placed publish id q x ≡ q.memory x
placed_other publish id q x h = rw (h) refl

pub placed_self :
    (publish : Publish) (id : ℕ) (q : QosPublishQueue)
    → placed publish id q q.fresh ≡ record (node publish id) { prev = q.head }
placed_self publish id q = let e : (q.fresh == q.fresh) ≡ true = ground arith in rw (e) refl

pub older : (x p : ℕ) → x < p → (x == p) ≡ false
older x p h = ground arith

pub outside :
    (p : Ptr) (xs : List Ptr) → ((x : Ptr) → mem x xs ≡ true → (x == p) ≡ false) → mem p xs ≡ false
outside p [] h = refl
outside p (x ∷ xs) h = rw (h x (mem_self x xs)) (outside p xs (λ y i. h y (mem_more y x xs i)))

pub old-snoc :
    (p : Ptr) (xs : List Ptr)
    → ((x : Ptr) → mem x xs ≡ true → x < p)
    → (x : Ptr) → mem x (xs ++ p ∷ []) ≡ true
    → x < suc p
old-snoc p [] h x i = ground arith
old-snoc p (y ∷ xs) h x i = elim (Bool-cases (y == x)) [
  | inl e ↦ let lt = h y (mem_self y xs) in ground arith
  | inr e ↦ old-snoc p xs (λ z j. h z (mem_more z y xs j)) x (rw (e) at i)
]

pub pos_add : (a b : ℕ) → pos a +ℤ pos b ≡ pos (a + b)
unfolding ◌+ℤ◌
pos_add a b = ground arith

pub tail-snoc :
    (xs : List Ptr) (p : Ptr)
    → (elim (first_or none xs) [ none ↦ some p | some t ↦ some t ]) ≡ first_or none (xs ++ p ∷ [])
tail-snoc [] p = refl
tail-snoc (x ∷ xs) p = refl

pub queue_publish_lem :
    (publish : Publish) (id : ℕ) (q : QosPublishQueue)
    → (es : List (ℕ × Ptr)) × (queue_publish publish id q ≡ record {
      memory = linked publish id q;
      fresh = suc q.fresh;
      head = some q.fresh;
      tail = elim q.tail [ none ↦ some q.fresh | some t ↦ some t ];
      queue = assign id q.fresh q.queue;
      queue_expirations = es;
      qos_queue_bytes = q.qos_queue_bytes +ℤ pos (footprint publish);
    })
unfolding queue_publish add_to_head_of_linked_list get_approximate_memory_footprint
queue_publish_lem publish id q =
    let base : QosPublishQueue = record {
      memory = linked publish id q;
      fresh = suc q.fresh;
      head = some q.fresh;
      tail = elim q.tail [ none ↦ some q.fresh | some t ↦ some t ];
      queue = q.queue;
      queue_expirations = q.queue_expirations;
      qos_queue_bytes = q.qos_queue_bytes +ℤ pos (footprint publish);
    } in
    let (es, e) = add_to_expiration_queue_lem q.fresh base in
    (es, ap (λ (t : QosPublishQueue). record t { queue = assign id q.fresh t.queue }) e)
