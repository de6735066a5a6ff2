-- ===== src/QosQueue.antt =====
-- qospacketqueue.cpp: the publishes that wait for their acknowledgement, as a doubly linked list of
-- nodes in memory with a map from packet ids to nodes.
pub mod Chain
pub mod Relink
pub mod Erase
pub mod Fifo
pub mod Lookups
pub mod Refine
pub mod Snoc
pub mod Spec
pub mod Expiry
use flash_mq.Base.{
  ℕ, suc, ◌+◌, ◌-◌, Bool, true, false, not, ◌||◌, ◌&&◌, any, List, [], ◌∷◌, ◌++◌, length, ltb, leb,
  ◌==◌, if◌then◌else◌, Option, none, some,
}
use flash_mq.Base.Int.{ℤ, pos, ◌+ℤ◌, ◌-ℤ◌, ltb_ℤ}
use flash_mq.Base.Text.{Text}

-- What the queue looks at in a `Publish`: `expires_at` is there when `expireInfo` is, in seconds.
pub record Publish : Type 0 where
  pub topic : Text
  pub payload : Text
  pub expires_at : Option ℕ

-- The address of a node. A weak pointer is one that may be null or outlive its node.
abbrev pub Ptr : Type 0
Ptr = ℕ

pub record QueuedPublish : Type 0 where
  pub publish : Publish
  pub packet_id : ℕ
  pub prev : Option Ptr
  pub next : Option Ptr

abbrev pub Memory : Type 0
Memory = Ptr → QueuedPublish

-- `make_shared` takes the address `fresh`; addresses are not used again.
pub record QosPublishQueue : Type 0 where
  pub memory : Memory
  pub fresh : Ptr
  pub head : Option Ptr
  pub tail : Option Ptr
  pub queue : List (ℕ × Ptr)
  pub queue_expirations : List (ℕ × Ptr)
  pub qos_queue_bytes : ℤ

unfoldable pub get_approximate_memory_footprint : QueuedPublish → ℕ
get_approximate_memory_footprint qp = length qp.publish.topic + length qp.publish.payload

-- `unordered_map::find`, `map[id] = p` and `erase` of the map.
unfoldable pub find : ℕ → List (ℕ × Ptr) → Option Ptr
find id [] = none
find id ((i, p) ∷ m) = if i == id then some p else find id m

unfoldable pub assign : ℕ → Ptr → List (ℕ × Ptr) → List (ℕ × Ptr)
assign id p [] = (id, p) ∷ []
assign id p ((i, q) ∷ m) = if i == id then (id, p) ∷ m else (i, q) ∷ assign id p m

unfoldable pub remove : ℕ → List (ℕ × Ptr) → List (ℕ × Ptr)
remove id [] = []
remove id ((i, p) ∷ m) = if i == id then m else (i, p) ∷ remove id m

abbrev pub same : Option Ptr → Ptr → Bool
same none p = false
same (some q) p = q == p

-- A node lives while the map, `head` or `tail` holds it.
unfoldable pub is_alive : QosPublishQueue → Ptr → Bool
is_alive q p = any (λ e. e.1 == p) q.queue || same q.head p || same q.tail p

unfoldable pub lock : QosPublishQueue → Option Ptr → Option Ptr
unfolding is_alive
lock q none = none
lock q (some p) = if is_alive q p then some p else none

-- A write to a node, and one through a pointer that may be null.
abbrev pub update : Ptr → (QueuedPublish → QueuedPublish) → Memory → Memory
update p f m a = if a == p then f (m a) else m a

abbrev pub update_at : Option Ptr → (QueuedPublish → QueuedPublish) → Memory → Memory
update_at none f m = m
update_at (some p) f m = update p f m

abbrev pub set_prev : Option Ptr → QueuedPublish → QueuedPublish
set_prev p n = record n { prev = p }

abbrev pub set_next : Option Ptr → QueuedPublish → QueuedPublish
set_next p n = record n { next = p }

unfoldable pub add_to_head_of_linked_list : Ptr → QosPublishQueue → QosPublishQueue
add_to_head_of_linked_list p q = record q {
  memory = update_at q.head (set_next (some p)) (update p (set_prev q.head) q.memory);
  head = some p;
  tail = (elim q.tail [ none ↦ some p | some t ↦ some t ]);
}

-- `multimap::emplace`: behind the entries with the same time.
unfoldable pub emplace : ℕ → Ptr → List (ℕ × Ptr) → List (ℕ × Ptr)
emplace when p [] = (when, p) ∷ []
emplace when p ((w, q) ∷ es) =
    if leb w when then (w, q) ∷ emplace when p es else (when, p) ∷ (w, q) ∷ es

unfoldable pub add_to_expiration_queue : Ptr → QosPublishQueue → QosPublishQueue
add_to_expiration_queue p q = elim (q.memory p).publish.expires_at [
  | none ↦ q
  | some when ↦ record q { queue_expirations = emplace when p q.queue_expirations }
]

-- `queuePublish(pub, id)`
unfoldable pub queue_publish : Publish → ℕ → QosPublishQueue → QosPublishQueue
unfolding add_to_head_of_linked_list
queue_publish publish id q =
    let p = q.fresh in
    let node : QueuedPublish = record {
      publish = publish;
      packet_id = id;
      prev = none;
      next = none;
    } in
    let made : QosPublishQueue = record q {
      memory = update p (λ _. node) q.memory;
      fresh = suc p;
    } in
    let linked = add_to_head_of_linked_list p made in
    let counted : QosPublishQueue = record linked {
      qos_queue_bytes = linked.qos_queue_bytes +ℤ pos (get_approximate_memory_footprint node);
    } in
    let expiring = add_to_expiration_queue p counted in
    record expiring { queue = assign id p expiring.queue }

-- The entry `id` of the map holds `p`.
unfoldable pub erase_from_map_and_relink_list : ℕ → Ptr → QosPublishQueue → QosPublishQueue
erase_from_map_and_relink_list id p q =
    let n = q.memory p in
    let q₁ : QosPublishQueue = record q {
      memory = update_at (lock q n.prev) (set_next n.next) q.memory;
    } in
    let q₂ : QosPublishQueue = record q₁ {
      head = if same q₁.head p then lock q₁ (q₁.memory p).prev else q₁.head;
    } in
    let q₃ : QosPublishQueue = record q₂ {
      memory = update_at (lock q₂ (q₂.memory p).next) (set_prev (q₂.memory p).prev) q₂.memory;
    } in
    let q₄ : QosPublishQueue = record q₃ {
      tail = if same q₃.tail p then lock q₃ (q₃.memory p).next else q₃.tail;
    } in
    record q₄ { queue = remove id q₄.queue }

unfoldable pub subtract_qos_bytes : Ptr → QosPublishQueue → QosPublishQueue
subtract_qos_bytes p q =
    let left = q.qos_queue_bytes -ℤ pos (get_approximate_memory_footprint (q.memory p)) in
    record q { qos_queue_bytes = if ltb_ℤ left (pos 0) then pos 0 else left }

unfoldable pub erase : ℕ → QosPublishQueue → QosPublishQueue × Bool
erase packet_id q = elim (find packet_id q.queue) [
  | none ↦ (q, false)
  | some p ↦ (erase_from_map_and_relink_list packet_id p (subtract_qos_bytes p q), true)
]

unfoldable pub size : QosPublishQueue → ℕ
size q = length q.queue

-- The test that an entry of the expirations still is in the map.
abbrev pub holds : Option Ptr → Ptr → Bool
holds o p = same o p

-- The loop of `clearExpiredMessages`; `clock` is what each call of `now()` gives.
unfoldable pub clear_loop :
    (ℕ → ℕ) → ℕ → List (ℕ × Ptr) → List ℕ → QosPublishQueue → QosPublishQueue × List ℕ
clear_loop clock i [] removed_ids q = (record q { queue_expirations = [] }, removed_ids)
clear_loop clock i ((when, p) ∷ es) removed_ids q =
    let q' : QosPublishQueue = record q { queue_expirations = es } in
    let id = (q.memory p).packet_id in
    let found = is_alive q p && same (find id q.queue) p in
    let next =
      if found then erase_from_map_and_relink_list id p (subtract_qos_bytes p q') else q' in
    let rest =
      clear_loop clock (suc i) es (if found then removed_ids ++ id ∷ [] else removed_ids) next in
    if ltb (clock i) when
    then (record q { queue_expirations = (when, p) ∷ es }, removed_ids)
    else rest

unfoldable pub clear_expired_messages : (ℕ → ℕ) → QosPublishQueue → QosPublishQueue × List ℕ
clear_expired_messages clock q = elim q.queue_expirations [
  | [] ↦ (q, [])
  | (when, p) ∷ es ↦
      if ltb (clock 0) when then (q, []) else clear_loop clock 1 ((when, p) ∷ es) [] q
]

abbrev pub empty : Memory → QosPublishQueue
empty memory = record {
  memory = memory;
  fresh = 0;
  head = none;
  tail = none;
  queue = [];
  queue_expirations = [];
  qos_queue_bytes = pos 0;
}
