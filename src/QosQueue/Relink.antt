-- ===== src/QosQueue/Relink.antt =====
-- qospacketqueue.cpp: nodes that are put in and taken out of the linked list.
use flash_mq.Base.{
  ◌≡◌, refl, ap, ◌∙◌, true, false, List, [], ◌∷◌, ◌++◌, ◌==◌, Option, none, some, arith, Bool-cases,
  inl, inr, any-append,
}
use flash_mq.QosQueue.{Ptr, QueuedPublish, Memory, update, update_at, set_prev, set_next, same}
use flash_mq.QosQueue.Chain.{first_or, last_or, mem, distinct, Chain, Chain-frame}

-- A write at one address, seen from another.
pub update_other :
    (p x : Ptr) (f : QueuedPublish → QueuedPublish) (m : Memory)
    → (x == p) ≡ false
    → update p f m x ≡ m x
update_other p x f m h = rw (h) refl

pub update_self :
    (p : Ptr) (f : QueuedPublish → QueuedPublish) (m : Memory) → update p f m p ≡ f (m p)
update_self p f m = let e : (p == p) ≡ true = ground arith in rw (e) refl

pub update_at_other :
    (o : Option Ptr) (x : Ptr) (f : QueuedPublish → QueuedPublish) (m : Memory)
    → same o x ≡ false
    → update_at o f m x ≡ m x
update_at_other none x f m h = refl
update_at_other (some p) x f m h = update_other p x f m (ground arith)

-- The last of a list that is not empty is one of it.
pub last_or-mem :
    (o : Option Ptr) (x : Ptr) (xs : List Ptr)
    → (l : Ptr) × (last_or o (x ∷ xs) ≡ some l) × (mem l (x ∷ xs) ≡ true)
last_or-mem o x [] = (x, refl, ground arith)
last_or-mem o x (y ∷ ys) = let (l, e, i) = last_or-mem (some x) y ys in (l, e, ground (arith, i))

pub mem_ne : (x l : Ptr) (xs : List Ptr) → mem x xs ≡ false → mem l xs ≡ true → (l == x) ≡ false
mem_ne x l [] out in_ = ground arith
mem_ne x l (y ∷ ys) out in_ = ground (arith, mem_ne x l ys)

pub distinct_head : (x : Ptr) (xs : List Ptr) → distinct (x ∷ xs) ≡ true → mem x xs ≡ false
distinct_head x xs d = ground arith

pub distinct_tail : (x : Ptr) (xs : List Ptr) → distinct (x ∷ xs) ≡ true → distinct xs ≡ true
distinct_tail x xs d = ground arith

pub out_head : (p x : Ptr) (xs : List Ptr) → mem p (x ∷ xs) ≡ false → (x == p) ≡ false
out_head p x xs h = ground arith

pub out_tail : (p x : Ptr) (xs : List Ptr) → mem p (x ∷ xs) ≡ false → mem p xs ≡ false
out_tail p x xs h = ground arith

pub flip : (x y : Ptr) → (x == y) ≡ false → (y == x) ≡ false
flip x y h = ground arith

-- `add_to_head_of_linked_list`: the last node gets `p` behind it.
pub Chain-add :
    (m : Memory) (before : Option Ptr) (xs : List Ptr) (p : Ptr)
    → (m p).prev ≡ last_or before xs
    → (m p).next ≡ none
    → mem p xs ≡ false
    → same before p ≡ false
    → distinct xs ≡ true
    → Chain m before xs none
    → Chain (update_at (last_or before xs) (set_next (some p)) m) before (xs ++ p ∷ []) none
Chain-add m before [] p hp hn out apart d c =
    let e = update_at_other before p (set_next (some p)) m apart in rw (e) (hp, hn, tt)
Chain-add m before (x ∷ []) p hp hn out apart d (cp, cn, _) =
    let other : (p == x) ≡ false = flip x p (out_head p x [] out) in
    let this = update_self x (set_next (some p)) m in
    let that = update_other x p (set_next (some p)) m other in
    rw (this, that) (cp, refl, (hp, hn, tt))
Chain-add m before (x ∷ y ∷ ys) p hp hn out apart d (cp, cn, c) =
    let (l, e, i) = last_or-mem (some x) y ys in
    let ne : (l == x) ≡ false = mem_ne x l (y ∷ ys) (distinct_head x (y ∷ ys) d) i in
    let apart_x : same (last_or before (x ∷ y ∷ ys)) x ≡ false = rw (e) ne in
    let unchanged = update_at_other (last_or before (x ∷ y ∷ ys)) x (set_next (some p)) m apart_x in
    (
      ap (λ n. n.prev) unchanged ∙ cp,
      ap (λ n. n.next) unchanged ∙ cn,
      Chain-add m (some x) (y ∷ ys) p hp hn (out_tail p x (y ∷ ys) out) (out_head p x (y ∷ ys) out)
          (distinct_tail x (y ∷ ys) d) c,
    )

-- `erase_from_map_and_relink_list`: the neighbours of a node are linked to each other.
abbrev pub relink : Option Ptr → Option Ptr → Memory → Memory
relink prev next m = update_at next (set_prev prev) (update_at prev (set_next next) m)

pub relink-prev :
    (prev next : Option Ptr) (m : Memory) (x : Ptr)
    → same next x ≡ false
    → (relink prev next m x).prev ≡ (m x).prev
relink-prev none next m x h = ap (λ n. n.prev) (update_at_other next x (set_prev none) m h)
relink-prev (some l) next m x h =
    ap (λ n. n.prev) (update_at_other next x (set_prev (some l)) (update l (set_next next) m) h)
    ∙ elim (Bool-cases (x == l)) [ inl e ↦ rw (e) refl | inr e ↦ rw (e) refl ]

pub relink-next :
    (prev next : Option Ptr) (m : Memory) (x : Ptr)
    → same prev x ≡ false
    → (relink prev next m x).next ≡ (m x).next
relink-next prev none m x h = ap (λ n. n.next) (update_at_other prev x (set_next none) m h)
relink-next prev (some a) m x h =
    elim (Bool-cases (x == a)) [ inl e ↦ rw (e) refl | inr e ↦ rw (e) refl ]
    ∙ ap (λ n. n.next) (update_at_other prev x (set_next (some a)) m h)

relink-next_self :
    (next : Option Ptr) (m : Memory) (x : Ptr) → (relink (some x) next m x).next ≡ next
relink-next_self none m x = ap (λ n. n.next) (update_self x (set_next none) m)
relink-next_self (some a) m x =
    elim (Bool-cases (x == a)) [ inl e ↦ rw (e) refl | inr e ↦ rw (e) refl ]
    ∙ ap (λ n. n.next) (update_self x (set_next (some a)) m)

relink-prev_self :
    (prev : Option Ptr) (m : Memory) (x : Ptr) → (relink prev (some x) m x).prev ≡ prev
relink-prev_self prev m x =
    ap (λ n. n.prev) (update_self x (set_prev prev) (update_at prev (set_next (some x)) m))

pub mem_self : (y : Ptr) (ys : List Ptr) → mem y (y ∷ ys) ≡ true
mem_self y ys = ground arith

pub mem_more : (x y : Ptr) (ys : List Ptr) → mem x ys ≡ true → mem x (y ∷ ys) ≡ true
mem_more x y ys h = ground arith

first_or-mem :
    (y : Ptr) (ys : List Ptr) (x : Ptr)
    → mem x (y ∷ ys) ≡ false
    → same (first_or none (y ∷ ys)) x ≡ false
first_or-mem y ys x h = out_head x y ys h

-- Nodes that are not next to the one that is taken out.
Chain-relink_after :
    (m : Memory) (prev : Option Ptr) (ys : List Ptr) (p : Ptr)
    → ((x : Ptr) → mem x ys ≡ true → same prev x ≡ false)
    → distinct ys ≡ true
    → Chain m (some p) ys none
    → Chain (relink prev (first_or none ys) m) prev ys none
Chain-relink_after m prev [] p apart d c = tt
Chain-relink_after m prev (y ∷ ys) p apart d (cp, cn, c) = (
  relink-prev_self prev m y,
  relink-next prev (some y) m y (apart y (mem_self y ys)) ∙ cn,
  Chain-frame m (relink prev (some y) m) (some y) none ys
      (λ x i. (
        relink-prev prev (some y) m x (flip x y (mem_ne y x ys (distinct_head y ys d) i)),
        relink-next prev (some y) m x (apart x (mem_more x y ys i)),
      ))
      c,
)

pub mem-append_right : (z : Ptr) (xs ys : List Ptr) → mem z (xs ++ ys) ≡ false → mem z ys ≡ false
mem-append_right z [] ys h = h
mem-append_right z (x ∷ xs) ys h = mem-append_right z xs ys (out_tail z x (xs ++ ys) h)

pub mem-append_left : (z : Ptr) (xs ys : List Ptr) → mem z xs ≡ true → mem z (xs ++ ys) ≡ true
mem-append_left z xs ys h = rw (any-append (λ x. x == z) xs ys, h) refl

first_apart :
    (z p : Ptr) (xs ys : List Ptr)
    → mem z (xs ++ p ∷ ys) ≡ false
    → same (first_or none ys) z ≡ false
first_apart z p xs [] h = refl
first_apart z p xs (y ∷ ys) h =
    out_head z y ys (out_tail z p (y ∷ ys) (mem-append_right z xs (p ∷ y ∷ ys) h))

-- The node `p` is taken out from between `xs` and `ys`.
pub Chain-relink :
    (m : Memory) (before : Option Ptr) (xs : List Ptr) (p : Ptr) (ys : List Ptr)
    → ((x : Ptr) → mem x (xs ++ p ∷ ys) ≡ true → same before x ≡ false)
    → distinct (xs ++ p ∷ ys) ≡ true
    → Chain m before (xs ++ p ∷ ys) none
    → Chain (relink (last_or before xs) (first_or none ys) m) before (xs ++ ys) none
Chain-relink m before [] p ys apart d (cp, cn, c) =
    Chain-relink_after m before ys p (λ x i. apart x (mem_more x p ys i)) (distinct_tail p ys d) c
Chain-relink m before (x ∷ []) p ys apart d (cp, cn, c) =
    let out = distinct_head x (p ∷ ys) d in
    (
      relink-prev (some x) (first_or none ys) m x (first_apart x p [] ys out) ∙ cp,
      relink-next_self (first_or none ys) m x,
      Chain-relink m (some x) [] p ys (λ z i. flip z x (mem_ne x z (p ∷ ys) out i))
          (distinct_tail x (p ∷ ys) d) c,
    )
Chain-relink m before (x ∷ y ∷ xs) p ys apart d (cp, cn, c) =
    let out = distinct_head x (y ∷ xs ++ p ∷ ys) d in
    let (l, e, i) = last_or-mem (some x) y xs in
    let l_apart : same (last_or before (x ∷ y ∷ xs)) x ≡ false =
      rw (e) (mem_ne x l (y ∷ xs ++ p ∷ ys) out (mem-append_left l (y ∷ xs) (p ∷ ys) i)) in
    (
      relink-prev (last_or before (x ∷ y ∷ xs)) (first_or none ys) m x
            (first_apart x p (y ∷ xs) ys out)
          ∙ cp,
      relink-next (last_or before (x ∷ y ∷ xs)) (first_or none ys) m x l_apart ∙ cn,
      Chain-relink m (some x) (y ∷ xs) p ys (λ z j. flip z x (mem_ne x z (y ∷ xs ++ p ∷ ys) out j))
          (distinct_tail x (y ∷ xs ++ p ∷ ys) d) c,
    )

-- What the node's own links are.
pub Chain-links :
    (m : Memory) (before : Option Ptr) (xs : List Ptr) (p : Ptr) (ys : List Ptr)
    → Chain m before (xs ++ p ∷ ys) none
    → ((m p).prev ≡ last_or before xs) × ((m p).next ≡ first_or none ys)
Chain-links m before [] p ys (cp, cn, c) = (cp, cn)
Chain-links m before (x ∷ xs) p ys (cp, cn, c) = Chain-links m (some x) xs p ys c
