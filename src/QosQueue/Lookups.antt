-- ===== src/QosQueue/Lookups.antt =====
-- qospacketqueue.cpp: what is found by a packet id in the map and among the nodes.
use flash_mq.Base.{
  ℕ, ◌≡◌, refl, ◌∙◌, true, false, ◌||◌, List, [], ◌∷◌, ◌++◌, ◌==◌, if◌then◌else◌, Option, none,
  some, arith, Bool-cases, inl, inr, ◌⊎◌,
}
use flash_mq.QosQueue.{
  Publish, Ptr, QueuedPublish, Memory, update_at, set_prev, set_next, find, remove, assign,
}
use flash_mq.QosQueue.Chain.{mem}
use flash_mq.QosQueue.Relink.{relink}
use flash_mq.QosQueue.Fifo.{
  Fifo, has_id, drop_id, unique_ids, contents, holder, has_key, unique_keys,
}

find-none : (id : ℕ) (m : List (ℕ × Ptr)) → has_key id m ≡ false → find id m ≡ none
unfolding find
find-none id [] h = refl
find-none id ((i, p) ∷ m) h =
    let other : (i == id) ≡ false = ground arith in rw (other) (find-none id m (rw (other) at h))

pub find-remove :
    (id j : ℕ) (m : List (ℕ × Ptr))
    → unique_keys m ≡ true
    → find j (remove id m) ≡ (if id == j then none else find j m)
unfolding find remove
find-remove id j [] u = elim (Bool-cases (id == j)) [ inl e ↦ rw (e) refl | inr e ↦ rw (e) refl ]
find-remove id j ((i, p) ∷ m) u =
    let out : has_key i m ≡ false = ground arith in
    let u' : unique_keys m ≡ true = ground arith in
    let gone = find-none i m out in let ih = find-remove id j m u' in ground (arith, gone, ih)

has_key-remove :
    (id j : ℕ) (m : List (ℕ × Ptr)) → has_key j m ≡ false → has_key j (remove id m) ≡ false
unfolding remove
has_key-remove id j [] h = refl
has_key-remove id j ((i, p) ∷ m) h = ground (arith, has_key-remove id j m)

pub unique_keys-remove :
    (id : ℕ) (m : List (ℕ × Ptr)) → unique_keys m ≡ true → unique_keys (remove id m) ≡ true
unfolding remove
unique_keys-remove id [] u = refl
unique_keys-remove id ((i, p) ∷ m) u =
    ground (arith, unique_keys-remove id m, has_key-remove id i m)

pub find-assign :
    (id j : ℕ) (p : Ptr) (m : List (ℕ × Ptr))
    → find j (assign id p m) ≡ (if id == j then some p else find j m)
unfolding find assign
find-assign id j p [] = refl
find-assign id j p ((i, r) ∷ m) = ground (arith, find-assign id j p m)

has_key-assign :
    (id j : ℕ) (p : Ptr) (m : List (ℕ × Ptr)) → has_key j (assign id p m) ≡ (id == j || has_key j m)
unfolding assign
has_key-assign id j p [] = refl
has_key-assign id j p ((i, r) ∷ m) = ground (arith, has_key-assign id j p m)

pub unique_keys-assign :
    (id : ℕ) (p : Ptr) (m : List (ℕ × Ptr))
    → unique_keys m ≡ true
    → unique_keys (assign id p m) ≡ true
unfolding assign
unique_keys-assign id p [] u = refl
unique_keys-assign id p ((i, r) ∷ m) u =
    ground (arith, unique_keys-assign id p m, has_key-assign id i p m)

-- Writes that leave ids and publishes alone.
abbrev pub SamePayload : Memory → Memory → Type 0
SamePayload m m' =
    (x : Ptr) → ((m' x).packet_id ≡ (m x).packet_id) × ((m' x).publish ≡ (m x).publish)

pub contents-frame :
    (m m' : Memory) (xs : List Ptr)
    → ((x : Ptr)
        → mem x xs ≡ true
        → ((m' x).packet_id ≡ (m x).packet_id) × ((m' x).publish ≡ (m x).publish))
    → (contents m' xs ≡ contents m xs) × ((id : ℕ) → holder m' xs id ≡ holder m xs id)
contents-frame m m' [] s = (refl, λ id. refl)
contents-frame m m' (x ∷ xs) s =
    let here : mem x (x ∷ xs) ≡ true = ground arith in
    let (si, sp) = s x here in
    let (ec, eh) = contents-frame m m' xs (λ y i. s y (ground arith)) in
    (rw (si, sp, ec) refl, λ id. rw (si, eh id) refl)

update_at-SamePayload :
    (o : Option Ptr) (f : QueuedPublish → QueuedPublish) (m : Memory)
    → ((n : QueuedPublish) → ((f n).packet_id ≡ n.packet_id) × ((f n).publish ≡ n.publish))
    → SamePayload m (update_at o f m)
update_at-SamePayload none f m h x = (refl, refl)
update_at-SamePayload (some p) f m h x = elim (Bool-cases (x == p)) [
  | inl e ↦ rw (e) (h (m x))
  | inr e ↦ rw (e) (refl, refl)
]

pub set_next-SamePayload :
    (o next : Option Ptr) (m : Memory) → SamePayload m (update_at o (set_next next) m)
set_next-SamePayload o next m = update_at-SamePayload o (set_next next) m (λ n. (refl, refl))

pub relink-SamePayload : (prev next : Option Ptr) (m : Memory) → SamePayload m (relink prev next m)
relink-SamePayload prev next m x =
    let (i, p) = update_at-SamePayload prev (set_next next) m (λ n. (refl, refl)) x in
    let (j, r) =
      update_at-SamePayload next (set_prev prev) (update_at prev (set_next next) m)
        (λ n. (refl, refl)) x in
    (j ∙ i, r ∙ p)

-- The place of an id among the nodes.
pub holder_cases :
    (m : Memory) (xs : List Ptr) (id : ℕ)
    → ((holder m xs id ≡ none)
        × (has_id id (contents m xs) ≡ false)
        × (drop_id id (contents m xs) ≡ contents m xs))
      ⊎ ((front : List Ptr) × (p : Ptr) × (back : List Ptr) × (xs ≡ front ++ p ∷ back)
          × (holder m xs id ≡ some p)
          × ((m p).packet_id ≡ id)
          × (has_id id (contents m xs) ≡ true)
          × (drop_id id (contents m xs) ≡ contents m (front ++ back)))
holder_cases m [] id = inl (refl, refl, refl)
holder_cases m (x ∷ xs) id = elim (Bool-cases ((m x).packet_id == id)) [
  | inl e ↦ inr ([], x, xs, refl, rw (e) refl, ground arith, rw (e) refl, rw (e) refl)
  | inr e ↦ elim (holder_cases m xs id) [
    | inl (n, h, d) ↦ inl (rw (e) n, rw (e) h, rw (e, d) refl)
    | inr (front, p, back, s, n, i, h, d) ↦
        inr (x ∷ front, p, back, rw (s) refl, rw (e) n, i, rw (e) h, rw (e, d) refl)
  ]
]

pub has_id-contents :
    (m : Memory) (x : Ptr) (xs : List Ptr)
    → mem x xs ≡ true
    → has_id (m x).packet_id (contents m xs) ≡ true
has_id-contents m x [] h = ground arith
has_id-contents m x (y ∷ ys) h = elim (Bool-cases (y == x)) [
  | inl e ↦
      let same_node : y ≡ x = ground arith in
      let s : ((m y).packet_id == (m x).packet_id) ≡ true = rw (same_node) (ground arith) in
      rw (s) refl
  | inr e ↦
      let later = has_id-contents m x ys (rw (e) at h) in
      elim (Bool-cases ((m y).packet_id == (m x).packet_id)) [
        | inl s ↦ rw (s) refl
        | inr s ↦ rw (s, later) refl
      ]
]

pub unique_head :
    (e : ℕ × Publish) (l : Fifo)
    → unique_ids (e ∷ l) ≡ true
    → (has_id e.0 l ≡ false) × (unique_ids l ≡ true)
unique_head (i, publish) l u = (ground arith, ground arith)

pub holder_self :
    (m : Memory) (x : Ptr) (xs : List Ptr)
    → unique_ids (contents m xs) ≡ true
    → mem x xs ≡ true
    → holder m xs (m x).packet_id ≡ some x
holder_self m x [] u h = ground arith
holder_self m x (y ∷ ys) u h =
    let (out, u') = unique_head ((m y).packet_id, (m y).publish) (contents m ys) u in
    elim (Bool-cases (y == x)) [
      | inl e ↦
          let same_node : y ≡ x = ground arith in
          let s : ((m y).packet_id == (m x).packet_id) ≡ true = rw (same_node) (ground arith) in
          rw (s, same_node) refl
      | inr e ↦
          let later : mem x ys ≡ true = rw (e) at h in
          elim (Bool-cases ((m y).packet_id == (m x).packet_id)) [
            | inl s ↦
                let ids : (m y).packet_id ≡ (m x).packet_id = ground arith in
                let twice = has_id-contents m x ys later in
                let out' = rw (ids) at out in ground arith
            | inr s ↦ rw (s) (holder_self m x ys u' later)
          ]
    ]
