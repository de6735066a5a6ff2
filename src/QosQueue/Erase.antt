-- ===== src/QosQueue/Erase.antt =====
-- qospacketqueue.cpp: `eraseFromMapAndRelinkList`.
use flash_mq.Base.{
  ℕ, ◌≡◌, refl, true, false, any, List, [], ◌∷◌, ◌==◌, if◌then◌else◌, Option, none, some, arith,
  Bool-cases, inl, inr,
}
use flash_mq.QosQueue.{
  Ptr, Memory, QosPublishQueue, update_at, set_prev, set_next, same, find, remove, is_alive, lock,
  erase_from_map_and_relink_list,
}
use flash_mq.QosQueue.Relink.{relink, update_at_other}

-- A node that the map holds is alive.
find-any :
    (id : ℕ) (p : Ptr) (m : List (ℕ × Ptr)) → find id m ≡ some p → any (λ e. e.1 == p) m ≡ true
unfolding find
find-any id p [] h = ground arith
find-any id p ((i, r) ∷ m) h = elim (Bool-cases (i == id)) [
  | inl e ↦
      let h' : some r ≡ some p = rw (e) at h in
      let there : (r == p) ≡ true = ground arith in rw (there) refl
  | inr e ↦
      let later = find-any id p m (rw (e) at h) in
      elim (Bool-cases (r == p)) [ inl t ↦ rw (t) refl | inr t ↦ rw (t, later) refl ]
]

pub lock_held :
    (q : QosPublishQueue) (id : ℕ) (p : Ptr) → find id q.queue ≡ some p → lock q (some p) ≡ some p
unfolding lock is_alive
lock_held q id p h = rw (find-any id p q.queue h) refl

-- A pointer that is null or points to a node that the map holds.
abbrev pub IsHeld : List (ℕ × Ptr) → Option Ptr → Type 0
IsHeld queue none = Unit
IsHeld queue (some p) = (id : ℕ) × (find id queue ≡ some p)

pub lock_lem : (q : QosPublishQueue) (o : Option Ptr) → IsHeld q.queue o → lock q o ≡ o
unfolding lock
lock_lem q none h = refl
lock_lem q (some p) (id, h) = lock_held q id p h

abbrev pub without : Option Ptr → Ptr → Option Ptr → Option Ptr
without o p o' = if same o p then o' else o

-- The call in terms of the node's neighbours.
pub erase_lem :
    (q : QosPublishQueue) (id : ℕ) (p : Ptr) (prev next : Option Ptr)
    → (q.memory p).prev ≡ prev
    → (q.memory p).next ≡ next
    → IsHeld q.queue prev
    → IsHeld q.queue next
    → same prev p ≡ false
    → same next p ≡ false
    → erase_from_map_and_relink_list id p q ≡ record q {
      memory = relink prev next q.memory;
      head = without q.head p prev;
      tail = without q.tail p next;
      queue = remove id q.queue;
    }
unfolding erase_from_map_and_relink_list
erase_lem q id p prev next hp hn held_prev held_next apart_prev apart_next =
    let m₁ : Memory = update_at prev (set_next next) q.memory in
    let at₁ : m₁ p ≡ q.memory p = update_at_other prev p (set_next next) q.memory apart_prev in
    let m₂ : Memory = update_at next (set_prev prev) m₁ in
    let at₂ : m₂ p ≡ m₁ p = update_at_other next p (set_prev prev) m₁ apart_next in
    let q₁ : QosPublishQueue = record q { memory = m₁ } in
    let q₂ : QosPublishQueue = record q₁ { head = without q.head p prev } in
    let q₃ : QosPublishQueue = record q₂ { memory = m₂ } in
    rw
      (
        hp,
        hn,
        lock_lem q prev held_prev,
        at₁,
        hp,
        hn,
        lock_lem q₁ prev held_prev,
        lock_lem q₂ next held_next,
        at₂,
        at₁,
        hn,
        lock_lem q₃ next held_next,
      )
      refl
