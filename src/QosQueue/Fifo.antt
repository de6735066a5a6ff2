-- ===== src/QosQueue/Fifo.antt =====
-- qospacketqueue.cpp: the queue as a list of ids and publishes, oldest first.
use flash_mq.Base.{
  ℕ, ◌+◌, ◌<◌, ◌≡◌, refl, Bool, true, false, not, ◌&&◌, any, List, [], ◌∷◌, ◌++◌, length, ◌==◌,
  if◌then◌else◌, Option, none, some, arith, Bool-cases, inl, inr,
}
use flash_mq.Base.Int.{pos}
use flash_mq.QosQueue.{Publish, Ptr, Memory, QosPublishQueue, find}
use flash_mq.QosQueue.Chain.{first_or, last_or, mem, distinct, Chain}
use flash_mq.QosQueue.Relink.{
  mem_ne, last_or-mem, flip, distinct_head, distinct_tail, out_head, out_tail, mem_more,
  mem-append_right,
}
use flash_mq.QosQueue.Erase.{without}

abbrev pub Fifo : Type 0
Fifo = List (ℕ × Publish)

abbrev pub has_id : ℕ → Fifo → Bool
has_id id l = any (λ e. e.0 == id) l

abbrev pub drop_id : ℕ → Fifo → Fifo
drop_id id [] = []
drop_id id ((i, publish) ∷ l) = if i == id then l else (i, publish) ∷ drop_id id l

abbrev pub unique_ids : Fifo → Bool
unique_ids [] = true
unique_ids ((i, publish) ∷ l) = not (has_id i l) && unique_ids l

abbrev pub footprint : Publish → ℕ
footprint publish = length publish.topic + length publish.payload

abbrev pub total : Fifo → ℕ
total [] = 0
total ((i, publish) ∷ l) = footprint publish + total l

-- What the nodes hold, and the node with an id.
abbrev pub contents : Memory → List Ptr → Fifo
contents m [] = []
contents m (x ∷ xs) = ((m x).packet_id, (m x).publish) ∷ contents m xs

abbrev pub holder : Memory → List Ptr → ℕ → Option Ptr
holder m [] id = none
holder m (x ∷ xs) id = if (m x).packet_id == id then some x else holder m xs id

abbrev pub has_key : ℕ → List (ℕ × Ptr) → Bool
has_key id m = any (λ e. e.0 == id) m

abbrev pub unique_keys : List (ℕ × Ptr) → Bool
unique_keys [] = true
unique_keys ((i, p) ∷ m) = not (has_key i m) && unique_keys m

-- The list, the map, the ends and the byte count agree on what is queued.
pub record Represents (q : QosPublishQueue) (l : Fifo) : Type 0 where
  pub nodes : List Ptr
  pub links : Chain q.memory none nodes none
  pub unique : distinct nodes ≡ true
  pub head : q.head ≡ last_or none nodes
  pub tail : q.tail ≡ first_or none nodes
  pub entries : (id : ℕ) → find id q.queue ≡ holder q.memory nodes id
  pub keys : unique_keys q.queue ≡ true
  pub old : (x : Ptr) → mem x nodes ≡ true → x < q.fresh
  pub holds : contents q.memory nodes ≡ l
  pub ids : unique_ids l ≡ true
  pub bytes : q.qos_queue_bytes ≡ pos (total l)

pub head_without :
    (o : Option Ptr) (xs : List Ptr) (p : Ptr) (ys : List Ptr)
    → distinct (xs ++ p ∷ ys) ≡ true
    → without (last_or o (xs ++ p ∷ ys)) p (last_or o xs) ≡ last_or o (xs ++ ys)
head_without o [] p [] d = let e : (p == p) ≡ true = ground arith in rw (e) refl
head_without o [] p (y ∷ ys) d =
    let (l, e, i) = last_or-mem (some p) y ys in
    let ne : (l == p) ≡ false = mem_ne p l (y ∷ ys) (distinct_head p (y ∷ ys) d) i in
    rw (e, ne) refl
head_without o (x ∷ xs) p ys d = head_without (some x) xs p ys (distinct_tail x (xs ++ p ∷ ys) d)

pub tail_without :
    (xs : List Ptr) (p : Ptr) (ys : List Ptr)
    → distinct (xs ++ p ∷ ys) ≡ true
    → without (first_or none (xs ++ p ∷ ys)) p (first_or none ys) ≡ first_or none (xs ++ ys)
tail_without [] p ys d = let e : (p == p) ≡ true = ground arith in rw (e) refl
tail_without (x ∷ xs) p ys d =
    let out = mem-append_right x xs (p ∷ ys) (distinct_head x (xs ++ p ∷ ys) d) in
    let e : (x == p) ≡ false = flip p x (out_head x p ys out) in rw (e) refl

pub mem-without :
    (z : Ptr) (xs : List Ptr) (p : Ptr) (ys : List Ptr)
    → mem z (xs ++ ys) ≡ true
    → mem z (xs ++ p ∷ ys) ≡ true
mem-without z [] p ys h = mem_more z p ys h
mem-without z (x ∷ xs) p ys h = elim (Bool-cases (x == z)) [
  | inl e ↦ rw (e) refl
  | inr e ↦ rw (e) (mem-without z xs p ys (rw (e) at h))
]

not-mem-without :
    (z : Ptr) (xs : List Ptr) (p : Ptr) (ys : List Ptr)
    → mem z (xs ++ p ∷ ys) ≡ false
    → mem z (xs ++ ys) ≡ false
not-mem-without z [] p ys h = out_tail z p ys h
not-mem-without z (x ∷ xs) p ys h =
    rw (out_head z x (xs ++ p ∷ ys) h) (not-mem-without z xs p ys (out_tail z x (xs ++ p ∷ ys) h))

pub distinct-without :
    (xs : List Ptr) (p : Ptr) (ys : List Ptr)
    → distinct (xs ++ p ∷ ys) ≡ true
    → distinct (xs ++ ys) ≡ true
distinct-without [] p ys d = distinct_tail p ys d
distinct-without (x ∷ xs) p ys d =
    let out = not-mem-without x xs p ys (distinct_head x (xs ++ p ∷ ys) d) in
    rw (out) (distinct-without xs p ys (distinct_tail x (xs ++ p ∷ ys) d))
