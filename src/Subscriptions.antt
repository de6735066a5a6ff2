-- ===== src/Subscriptions.antt =====
-- subscriptionstore.cpp: the tree of subscriptions, subscribing and publishing.
pub mod Tree
pub mod Entries
pub mod Delivery
pub mod Keys
use flash_mq.Base.{
  ℕ, Bool, true, false, not, ◌&&◌, ◌||◌, List, [], ◌∷◌, ◌++◌, Option, none, some, ◌==◌,
  if◌then◌else◌,
}
use flash_mq.Base.Text.{Text, str_eq}
use flash_mq.Base.Dict.{lookup, insert, remove}
use flash_mq.Topic.{plus, pound}
use flash_mq.Shared.{
  Session, Sessions, Subscription, SharedSubscribers, Targeting, first, round_robin, sender_hash,
  empty_subscribers, expired, lock_weak, is_none, or_empty, assign_member, get_member, get_first,
  get_next, get_next_hash, erase_member,
}

-- What a node holds itself: `subscribers`, `sharedSubscribers` and `lastUpdate`.
pub record Holding : Type 0 where
  pub subscribers : List (Text × Subscription)
  pub shared : List (Text × SharedSubscribers)
  pub last_update : ℕ

-- `SubscriptionNode`, with `children`, `childrenPlus` and `childrenPound`.
mutual
  pub data SubNode : Type 0 where
    node : Holding → Children → Wild → Wild → SubNode

  pub data Children : Type 0 where
    nil : Children
    child : Text → SubNode → Children → Children

  pub data Wild : Type 0 where
    absent : Wild
    present : SubNode → Wild

abbrev pub nobody : Holding
nobody = record { subscribers = []; shared = []; last_update = 0 }

abbrev pub fresh_node : SubNode
fresh_node = node nobody nil absent absent

pub data AddSubscriptionType : Type 0 where
  new_subscription existing_subscription : AddSubscriptionType

abbrev pub kind_of : Bool → AddSubscriptionType
kind_of true = new_subscription
kind_of false = existing_subscription

abbrev pub or_new_subscribers : Option Text → Option SharedSubscribers → SharedSubscribers
or_new_subscribers group_id none = empty_subscribers group_id
or_new_subscribers group_id (some s) = s

-- `addSubscriber` at the time `now`; the subscription is that of the session `ses`.
unfoldable pub add_subscriber :
    Sessions → Session → ℕ → Text → Subscription → Holding → Holding × AddSubscriptionType
unfolding lookup insert expired assign_member get_member empty_subscribers
add_subscriber alive ses now [] sub h = (
  record h { subscribers = insert ses.client_id sub h.subscribers; last_update = now },
  kind_of (expired alive (or_empty (lookup ses.client_id h.subscribers))),
)
add_subscriber alive ses now (c ∷ name) sub h =
    let s = or_new_subscribers ses.group_id (lookup (c ∷ name) h.shared) in
    (
      record h {
        shared = insert (c ∷ name) (assign_member ses.client_id sub s) h.shared;
        last_update = now;
      },
      kind_of (expired alive (get_member ses.client_id s)),
    )

abbrev pub erase_shared : Text → Text → Option SharedSubscribers → Holding → Holding
erase_shared name client_id none h = h
erase_shared name client_id (some s) h = record h {
  shared = insert name (erase_member client_id s) h.shared;
}

unfoldable pub remove_subscriber : Text → ℕ → Text → Holding → Holding
unfolding lookup insert remove erase_member
remove_subscriber client_id now [] h = record h {
  subscribers = remove client_id h.subscribers;
  last_update = now;
}
remove_subscriber client_id now (c ∷ name) h =
    erase_shared (c ∷ name) client_id (lookup (c ∷ name) h.shared) (record h { last_update = now })

-- `getDeepestNode(subtopics)`, and `f` on what the node it returns holds. The nodes on the way are
-- made as needed.
unfoldable pub on_child : (SubNode → SubNode) → Text → Children → Children
on_child f k nil = child k (f fresh_node) nil
on_child f k (child j n c) = if str_eq j k then child j (f n) c else child j n (on_child f k c)

abbrev pub on_wild : (SubNode → SubNode) → Wild → Wild
on_wild f absent = present (f fresh_node)
on_wild f (present n) = present (f n)

unfoldable pub at_deepest : List Text → (Holding → Holding) → SubNode → SubNode
unfolding on_child
at_deepest [] f (node h c p g) = node (f h) c p g
at_deepest (s ∷ subtopics) f (node h c p g) =
    let rest = at_deepest subtopics f in
    if str_eq s pound
    then node h c p (on_wild rest g)
    else if str_eq s plus
    then node h c (on_wild rest p) g
    else node h (on_child rest s c) p g

-- `getDeepestNode(subtopics, true)`, which gives up where a node is missing.
unfoldable pub on_existing_child : (SubNode → SubNode) → Text → Children → Children
on_existing_child f k nil = nil
on_existing_child f k (child j n c) =
    if str_eq j k then child j (f n) c else child j n (on_existing_child f k c)

abbrev pub on_existing_wild : (SubNode → SubNode) → Wild → Wild
on_existing_wild f absent = absent
on_existing_wild f (present n) = present (f n)

unfoldable pub at_existing : List Text → (Holding → Holding) → SubNode → SubNode
unfolding on_existing_child
at_existing [] f (node h c p g) = node (f h) c p g
at_existing (s ∷ subtopics) f (node h c p g) =
    let rest = at_existing subtopics f in
    if str_eq s pound
    then node h c p (on_existing_wild rest g)
    else if str_eq s plus
    then node h c (on_existing_wild rest p) g
    else node h (on_existing_child rest s c) p g

-- What `publishNonRecursively` and its callers get: who publishes, which sessions are alive, the
-- setting `sharedSubscriptionTargeting`, and `std::hash`.
pub record Sender : Type 0 where
  pub alive : Sessions
  pub client_id : Text
  pub group_id : Option Text
  pub targeting : Targeting
  pub hash : Text → ℕ

pub record ReceivingSubscriber : Type 0 where
  pub session : Option ℕ
  pub qos : ℕ
  pub retain_as_published : Bool
  pub subscription_identifier : ℕ

abbrev pub receiving : Subscription → ReceivingSubscriber
receiving s = record {
  session = s.session;
  qos = s.qos;
  retain_as_published = s.retain_as_published;
  subscription_identifier = s.subscription_identifier;
}

-- `session_group_id && session_group_id == fmq_client_group_id`
abbrev pub same_group : Option Text → Option Text → Bool
same_group none other = false
same_group (some g) none = false
same_group (some g) (some other) = str_eq g other

-- A subscription is left out if its session has expired, or for these two reasons.
abbrev pub receives_of : Sender → Bool → Option Session → Bool
receives_of sender no_local none = false
receives_of sender no_local (some ses) =
    not (no_local && str_eq ses.client_id sender.client_id)
    && not (same_group ses.group_id sender.group_id)

unfoldable pub subscribers_loop : Sender → List (Text × Subscription) → List ReceivingSubscriber
subscribers_loop sender [] = []
subscribers_loop sender ((_, s) ∷ subscribers) =
    let rest = subscribers_loop sender subscribers in
    if receives_of sender s.no_local (lock_weak sender.alive s.session)
    then receiving s ∷ rest
    else rest

abbrev pub or_setting : Option Targeting → Targeting → Targeting
or_setting none setting = setting
or_setting (some t) setting = t

-- The member of a shared subscription that is chosen.
unfoldable pub choose :
    Sender → Targeting → SharedSubscribers → Option Subscription × SharedSubscribers
unfolding get_next get_next_hash get_first
choose sender sender_hash s =
    (get_next_hash sender.alive (sender.hash sender.client_id) s.members, s)
choose sender round_robin s = get_next sender.alive s
choose sender first s = (get_first sender.alive s.members, s)

-- In a shared subscription `noLocal` does not count.
abbrev pub received : Sender → Option Subscription → List ReceivingSubscriber
received sender none = []
received sender (some s) =
    if receives_of sender false (lock_weak sender.alive s.session) then receiving s ∷ [] else []

unfoldable pub shared_loop :
    Sender
    → List (Text × SharedSubscribers)
    → List ReceivingSubscriber × List (Text × SharedSubscribers)
unfolding choose
shared_loop sender [] = ([], [])
shared_loop sender ((name, s) ∷ shared) =
    let (sub, s') = choose sender (or_setting s.override_target sender.targeting) s in
    let (receivers, shared') = shared_loop sender shared in
    (received sender sub ++ receivers, (name, s') ∷ shared')

unfoldable pub publish_non_recursively : Sender → Holding → List ReceivingSubscriber × Holding
unfolding subscribers_loop shared_loop
publish_non_recursively sender h =
    let (receivers, shared) = shared_loop sender h.shared in
    (subscribers_loop sender h.subscribers ++ receivers, record h { shared = shared })

-- The call for `childrenPound`.
unfoldable pub publish_pound : Sender → Wild → List ReceivingSubscriber × Wild
unfolding publish_non_recursively
publish_pound sender absent = ([], absent)
publish_pound sender (present (node h c p g)) =
    let (receivers, h') = publish_non_recursively sender h in (receivers, present (node h' c p g))

-- The calls for the child of a level, and for `childrenPlus`, where they are there.
unfoldable pub publish_child :
    (SubNode → List ReceivingSubscriber × SubNode)
    → Text
    → Children
    → List ReceivingSubscriber × Children
publish_child f k nil = ([], nil)
publish_child f k (child j n c) =
    let (here, n') = f n in
    let (there, c') = publish_child f k c in
    if str_eq j k then (here, child j n' c) else (there, child j n c')

abbrev pub publish_plus :
    (SubNode → List ReceivingSubscriber × SubNode) → Wild → List ReceivingSubscriber × Wild
publish_plus f absent = ([], absent)
publish_plus f (present n) = let (receivers, n') = f n in (receivers, present n')

abbrev pub is_leaf : Children → Wild → Wild → Bool
is_leaf nil absent absent = true
is_leaf (child k n c) p g = false
is_leaf nil (present n) g = false
is_leaf nil absent (present n) = false

-- The receivers, and the tree after it: the choice in shared subscriptions moves their counters.
unfoldable pub publish_recursively :
    Sender → List Text → SubNode → List ReceivingSubscriber × SubNode
unfolding publish_non_recursively publish_pound publish_child
publish_recursively sender [] (node h c p g) =
    let (here, h') = publish_non_recursively sender h in
    let (pounds, g') = publish_pound sender g in (here ++ pounds, node h' c p g')
publish_recursively sender (t ∷ ts) (node h c p g) =
    let (pounds, g') = publish_pound sender g in
    let (pluses, p') = publish_plus (publish_recursively sender ts) p in
    let (children, c') = publish_child (publish_recursively sender ts) t c in
    if is_leaf c p g then ([], node h c p g) else (pounds ++ (pluses ++ children), node h c' p' g')

-- The two trees: filters and topics that begin with a dollar have their own.
pub record Store : Type 0 where
  pub root : SubNode
  pub root_dollar : SubNode

unfoldable pub is_dollar : List Text → Bool
is_dollar [] = false
is_dollar ([] ∷ ts) = false
is_dollar ((c ∷ s) ∷ ts) = c == b'$'

unfoldable pub in_store : List Text → (SubNode → SubNode) → Store → Store
unfolding is_dollar
in_store subtopics f s =
    if is_dollar subtopics
    then record s { root_dollar = f s.root_dollar }
    else record s { root = f s.root }

-- `addSubscription` and `removeSubscription`, given a session, which is alive under its number.
unfoldable pub add_subscription :
    Sessions → Session → ℕ → List Text → Text → Subscription → Store → Store
unfolding in_store at_deepest add_subscriber
add_subscription alive ses now subtopics share_name sub =
    in_store subtopics
      (at_deepest subtopics (λ h. (add_subscriber alive ses now share_name sub h).0))

unfoldable pub remove_subscription : Session → ℕ → List Text → Text → Store → Store
unfolding in_store at_existing remove_subscriber
remove_subscription ses now subtopics share_name =
    in_store subtopics (at_existing subtopics (remove_subscriber ses.client_id now share_name))

abbrev pub begins_with_dollar : Text → Bool
begins_with_dollar [] = false
begins_with_dollar (c ∷ s) = c == b'$'

-- `queuePacketAtSubscribers` up to the writes to the receivers; `dollar` is set by the server itself.
unfoldable pub queue_packet_at_subscribers :
    Sender → Bool → Text → List Text → Store → List ReceivingSubscriber × Store
unfolding publish_recursively
queue_packet_at_subscribers sender dollar topic subtopics s =
    let (by_dollar, root_dollar) = publish_recursively sender subtopics s.root_dollar in
    let (receivers, root) = publish_recursively sender subtopics s.root in
    if not dollar && begins_with_dollar topic
    then ([], s)
    else if dollar
    then (by_dollar, record s { root_dollar = root_dollar })
    else (receivers, record s { root = root })
