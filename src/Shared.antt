-- ===== src/Shared.antt =====
-- sharedsubscribers.cpp and subscription.h: the members of a shared subscription, of which one gets
-- each message.
pub mod Choice
pub mod Members
pub mod Purge
use flash_mq.Base.{
  ℕ, zero, suc, ◌+◌, ◌-◌, ◌%◌, ◌^◌, Bool, true, false, not, List, [], ◌∷◌, ◌++◌, Option, none, some,
  length, get_elem?, set, is_nil, ltb, if◌then◌else◌,
}
use flash_mq.Base.Text.{Text}
use flash_mq.Base.Dict.{lookup, insert}

-- What is read of a `Session` here: `client_id` and `fmq_client_group_id`.
pub record Session : Type 0 where
  pub client_id : Text
  pub group_id : Option Text

-- The sessions that are alive. A `std::weak_ptr` is a number, or `none` once it was reset, and has
-- expired when no session is alive under the number.
abbrev pub Sessions : Type 0
Sessions = ℕ → Option Session

pub record Subscription : Type 0 where
  pub session : Option ℕ
  pub qos : ℕ
  pub no_local : Bool
  pub retain_as_published : Bool
  pub subscription_identifier : ℕ

abbrev pub empty_subscription : Subscription
empty_subscription = record {
  session = none;
  qos = 0;
  no_local = false;
  retain_as_published = false;
  subscription_identifier = 0;
}

-- `session.lock()`
abbrev pub lock_weak : Sessions → Option ℕ → Option Session
lock_weak alive none = none
lock_weak alive (some n) = alive n

abbrev pub is_none : {A : Type 0} → Option A → Bool
is_none none = true
is_none (some a) = false

-- `session.expired()`
unfoldable pub expired : Sessions → Subscription → Bool
expired alive s = is_none (lock_weak alive s.session)

unfoldable pub reset : Subscription → Subscription
reset s = record s { session = none; qos = 0 }

pub data Targeting : Type 0 where
  first round_robin sender_hash : Targeting

-- `members`, `index`, the bits of the `int` `roundRobinCounter`, and
-- `overrideSharedSubscriptionTarget`.
pub record SharedSubscribers : Type 0 where
  pub members : List Subscription
  pub index : List (Text × ℕ)
  pub round_robin_counter : ℕ
  pub override_target : Option Targeting

-- The constructor of `SharedSubscribers`.
unfoldable pub empty_subscribers : Option Text → SharedSubscribers
empty_subscribers group_id = record {
  members = [];
  index = [];
  round_robin_counter = 0;
  override_target = if is_none group_id then none else some sender_hash;
}

-- What the assignment `subscribers[clientid] = sub` of the caller does, given `index.find(clientid)`.
abbrev pub assign_at : Option ℕ → Text → Subscription → SharedSubscribers → SharedSubscribers
assign_at (some i) clientid sub s = record s { members = set s.members i sub }
assign_at none clientid sub s = record s {
  members = s.members ++ sub ∷ [];
  index = insert clientid (length s.members) s.index;
}

unfoldable pub assign_member : Text → Subscription → SharedSubscribers → SharedSubscribers
unfolding lookup
assign_member clientid sub s = assign_at (lookup clientid s.index) clientid sub s

-- The subscription that `operator[]` refers to, before it is assigned.
abbrev pub or_empty : Option Subscription → Subscription
or_empty none = empty_subscription
or_empty (some s) = s

abbrev pub member_at : Option ℕ → List Subscription → Subscription
member_at none members = empty_subscription
member_at (some i) members = or_empty (get_elem? members i)

unfoldable pub get_member : Text → SharedSubscribers → Subscription
unfolding lookup
get_member clientid s = member_at (lookup clientid s.index) s.members

unfoldable pub get_first : Sessions → List Subscription → Option Subscription
unfolding expired
get_first alive [] = none
get_first alive (s ∷ members) =
    let rest = get_first alive members in if not (expired alive s) then some s else rest

-- The conversion of the `int` with these bits to `size_t`.
unfoldable pub to_size : ℕ → ℕ
to_size bits = if ltb bits (2 ^ 31) then bits else bits + (2 ^ 64 - 2 ^ 32)

-- The loop of `getNext()`: the rounds left, the counter, and the counter after it.
unfoldable pub next_loop : Sessions → List Subscription → ℕ → ℕ → Option Subscription × ℕ
unfolding expired to_size
next_loop alive members zero counter = (none, counter)
next_loop alive members (suc rounds) counter =
    let s = or_empty (get_elem? members (to_size counter % length members)) in
    let counter' = (counter + 1) % 2 ^ 32 in
    let rest = next_loop alive members rounds counter' in
    if not (expired alive s) then (some s, counter') else rest

unfoldable pub get_next : Sessions → SharedSubscribers → Option Subscription × SharedSubscribers
unfolding next_loop
get_next alive s =
    let (result, counter) = next_loop alive s.members (length s.members) s.round_robin_counter in
    (result, record s { round_robin_counter = counter })

-- The loop of `getNext(hash)`.
unfoldable pub hash_loop : Sessions → List Subscription → ℕ → ℕ → Option Subscription
unfolding expired
hash_loop alive members zero at = none
hash_loop alive members (suc rounds) at =
    let s = or_empty (get_elem? members (at % length members)) in
    let rest = hash_loop alive members rounds ((at + 1) % 2 ^ 64) in
    if not (expired alive s) then some s else rest

unfoldable pub get_next_hash : Sessions → ℕ → List Subscription → Option Subscription
unfolding hash_loop
get_next_hash alive hash members =
    if is_nil members
    then none
    else hash_loop alive members (length members) (hash % length members)

abbrev pub erase_at : Option ℕ → SharedSubscribers → SharedSubscribers
erase_at none s = s
erase_at (some i) s = record s {
  members = set s.members i (reset (or_empty (get_elem? s.members i)));
}

unfoldable pub erase_member : Text → SharedSubscribers → SharedSubscribers
unfolding lookup reset
erase_member clientid s = erase_at (lookup clientid s.index) s

-- The loop of `purgeAndReIndex` over `index`, with `newMembers` and `newIndex`.
unfoldable pub purge_loop :
    Sessions
    → List Subscription
    → List (Text × ℕ)
    → List Subscription
    → List (Text × ℕ)
    → List Subscription × List (Text × ℕ)
unfolding expired insert
purge_loop alive members [] new_members new_index = (new_members, new_index)
purge_loop alive members ((clientid, i) ∷ index) new_members new_index =
    let sub = or_empty (get_elem? members i) in
    let keep =
      purge_loop alive members index (new_members ++ sub ∷ [])
        (insert clientid (length new_members) new_index) in
    let skip = purge_loop alive members index new_members new_index in
    if expired alive sub then skip else keep

unfoldable pub purge_and_re_index : Sessions → SharedSubscribers → SharedSubscribers
unfolding purge_loop
purge_and_re_index alive s =
    let (members, index) = purge_loop alive s.members s.index [] [] in
    record s { members = members; index = index }
