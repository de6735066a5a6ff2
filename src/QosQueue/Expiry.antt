-- ===== src/QosQueue/Expiry.antt =====
-- qospacketqueue.cpp: `clearExpiredMessages` against the list of what is queued.
use flash_mq.Base.{
  ℕ, suc, ◌≡◌, sym, subst, ◌∙◌, Bool, true, false, ◌&&◌, List, [], ◌∷◌, ◌++◌, append_assoc,
  append-nil, ltb, if◌then◌else◌, Option, none, some, arith, Bool-cases, inl, inr,
}
use flash_mq.QosQueue.{
  Ptr, QosPublishQueue, same, find, is_alive, subtract_qos_bytes, erase_from_map_and_relink_list,
  clear_loop, clear_expired_messages,
}
use flash_mq.QosQueue.Fifo.{Fifo, drop_id, Represents}
use flash_mq.QosQueue.Spec.{erase_found, erase-Represents}

abbrev pub drop_ids : List ℕ → Fifo → Fifo
drop_ids [] l = l
drop_ids (id ∷ ids) l = drop_ids ids (drop_id id l)

-- The times at which entries expire are no part of what is queued.
Represents-expirations :
    (q : QosPublishQueue) (l : Fifo) (es : List (ℕ × Ptr))
    → Represents q l
    → Represents (record q { queue_expirations = es }) l
Represents-expirations q l es r = record {
  nodes = r.nodes;
  links = r.links;
  unique = r.unique;
  head = r.head;
  tail = r.tail;
  entries = r.entries;
  keys = r.keys;
  old = r.old;
  holds = r.holds;
  ids = r.ids;
  bytes = r.bytes;
}

-- What the call has removed when it ends, after `removed_ids`.
record Cleared (l : Fifo) (removed_ids : List ℕ) (end : QosPublishQueue × List ℕ) : Type 0 where
  ids : List ℕ
  listed : end.1 ≡ removed_ids ++ ids
  left : Represents end.0 (drop_ids ids l)

Cleared-none :
    (q : QosPublishQueue) (l : Fifo) (removed_ids : List ℕ)
    → Represents q l
    → Cleared l removed_ids (q, removed_ids)
Cleared-none q l removed_ids r = record {
  ids = [];
  listed = sym (append-nil removed_ids);
  left = r;
}

Cleared-one :
    (l : Fifo) (removed_ids : List ℕ) (id : ℕ) (end : QosPublishQueue × List ℕ)
    → Cleared (drop_id id l) (removed_ids ++ id ∷ []) end
    → Cleared l removed_ids end
Cleared-one l removed_ids id end c = record {
  ids = id ∷ c.ids;
  listed = c.listed ∙ append_assoc removed_ids (id ∷ []) c.ids;
  left = c.left;
}

same_some : (o : Option Ptr) (p : Ptr) → same o p ≡ true → o ≡ some p
same_some none p h = ground arith
same_some (some r) p h = ground arith

Represents-found :
    (q : QosPublishQueue) (l : Fifo) (id : ℕ) (p : Ptr)
    → Represents q l
    → same (find id q.queue) p ≡ true
    → Represents (erase_from_map_and_relink_list id p (subtract_qos_bytes p q)) (drop_id id l)
Represents-found q l id p r found =
    let e = erase_found id p q (same_some (find id q.queue) p found) in
    subst (λ (t : QosPublishQueue × Bool). Represents t.0 (drop_id id l)) e
      (erase-Represents q l id r).0

and_right : (a b : Bool) → a && b ≡ true → b ≡ true
and_right true b h = h
and_right false b h = ground arith

clear_loop-Cleared :
    (clock : ℕ → ℕ) (i : ℕ) (es : List (ℕ × Ptr)) (removed_ids : List ℕ) (q : QosPublishQueue)
    (l : Fifo)
    → Represents q l
    → Cleared l removed_ids (clear_loop clock i es removed_ids q)
unfolding clear_loop
clear_loop-Cleared clock i [] removed_ids q l r =
    Cleared-none _ l removed_ids (Represents-expirations q l [] r)
clear_loop-Cleared clock i ((when, p) ∷ es) removed_ids q l r =
    let q' : QosPublishQueue = record q { queue_expirations = es } in
    let id = (q.memory p).packet_id in
    let r' : Represents q' l = Represents-expirations q l es r in
    elim (Bool-cases (ltb (clock i) when)) [
      | inl later ↦
          rw (later) (Cleared-none _ l removed_ids (Represents-expirations q l ((when, p) ∷ es) r))
      | inr due ↦ elim (Bool-cases (is_alive q p && same (find id q.queue) p)) [
        | inl found ↦
            rw (due, found)
              (Cleared-one l removed_ids id _ (
                clear_loop-Cleared clock (suc i) es (removed_ids ++ id ∷ []) _ (drop_id id l)
                  (Represents-found q' l id p r' (and_right (is_alive q p) _ found))))
        | inr gone ↦ rw (due, gone) (clear_loop-Cleared clock (suc i) es removed_ids q' l r')
      ]
    ]

clear_expired_messages-Cleared :
    (clock : ℕ → ℕ) (q : QosPublishQueue) (l : Fifo)
    → Represents q l
    → Cleared l [] (clear_expired_messages clock q)
unfolding clear_expired_messages
clear_expired_messages-Cleared clock q l r = go q.queue_expirations
  where
    go :
        (es : List (ℕ × Ptr))
        → Cleared l [] (elim es [
          | [] ↦ (q, [])
          | (when, p) ∷ rest ↦
              if ltb (clock 0) when then (q, []) else clear_loop clock 1 ((when, p) ∷ rest) [] q
        ])
    go [] = Cleared-none q l [] r
    go ((when, p) ∷ es) = elim (Bool-cases (ltb (clock 0) when)) [
      | inl later ↦ rw (later) (Cleared-none q l [] r)
      | inr due ↦ rw (due) (clear_loop-Cleared clock 1 ((when, p) ∷ es) [] q l r)
    ]

-- `clearExpiredMessages` removes from the list what it returns the ids of, and nothing else, whatever
-- the clock says and whichever entries of the expirations belong to nodes that are gone: the queue
-- that stood for `l` stands for `l` without those ids.
pub clear_expired_messages-Represents :
    (clock : ℕ → ℕ) (q : QosPublishQueue) (l : Fifo)
    → Represents q l
    → Represents (clear_expired_messages clock q).0 (drop_ids (clear_expired_messages clock q).1 l)
clear_expired_messages-Represents clock q l r =
    let c = clear_expired_messages-Cleared clock q l r in rw (c.listed) c.left
