-- ===== src/Tests/Subscribers.antt =====
-- Subscribing, publishing and shared subscriptions.
use flash_mq.Base.{
  ◌==◌, ℕ, ◌≡◌, refl, true, false, List, [], ◌∷◌, none, some, length, if◌then◌else◌, arith,
}
use flash_mq.Base.Text.{Text, codes, str_eq}
use flash_mq.Shared.{
  Session, Sessions, Subscription, SharedSubscribers, Targeting, expired, empty_subscription,
  get_member, assign_member, get_next, get_next_hash, purge_and_re_index,
}
use flash_mq.Shared.Choice.{Delivers, InTurn, get_next_hash-Delivers, get_next-InTurn}
use flash_mq.Shared.Members.{SharedIsValid, assign_member-IsValid}
use flash_mq.Shared.Purge.{AllAlive, nothing-IsValid, purge_and_re_index-Purged}
use flash_mq.Subscriptions.{
  add_subscriber, Store, Sender, fresh_node, at_deepest, at_existing, add_subscription,
  publish_recursively,
}
use flash_mq.Subscriptions.Entries.{KeysValid, filter_matches, entries, count_where, total}
use flash_mq.Subscriptions.Delivery.{weight, publish_recursively-total}
use flash_mq.Subscriptions.Keys.{tree-KeysValid}

abbrev ann : Session
ann = record { client_id = codes "ann"; group_id = none }

-- Session 1 is Ann's, and no other is alive.
abbrev only_ann : Sessions
only_ann n = if n == 1 then some ann else none

abbrev of_session : ℕ → Subscription
of_session n = record {
  session = some n;
  qos = 1;
  no_local = false;
  retain_as_published = false;
  subscription_identifier = 0;
}

abbrev two : SharedSubscribers
two = record {
  members = of_session 2 ∷ of_session 1 ∷ [];
  index = [];
  round_robin_counter = 4;
  override_target = none;
}

get_next_hash-Delivers_example :
    Delivers only_ann two.members (get_next_hash only_ann 12 two.members)
get_next_hash-Delivers_example = get_next_hash-Delivers only_ann two.members 12 (omega arith)

get_next-InTurn_example : InTurn only_ann two (get_next only_ann two)
get_next-InTurn_example = get_next-InTurn only_ann two (omega arith)

get_next_of_two : (get_next only_ann two).0 ≡ some (of_session 1)
unfolding get_next
get_next_of_two = refl

abbrev nothing : SharedSubscribers
nothing = record { members = []; index = []; round_robin_counter = 0; override_target = none }

abbrev one : SharedSubscribers
one = assign_member (codes "bob") (of_session 2) nothing

assign_member-IsValid_example :
    SharedIsValid one
    × ((j : Text)
        → get_member j one
          ≡ (if str_eq (codes "bob") j then of_session 2 else get_member j nothing))
assign_member-IsValid_example =
    assign_member-IsValid (codes "bob") (of_session 2) nothing nothing-IsValid

purge_and_re_index-Purged_example :
    SharedIsValid (purge_and_re_index only_ann one)
    × AllAlive only_ann (purge_and_re_index only_ann one).members
    × ((j : Text)
        → get_member j (purge_and_re_index only_ann one)
          ≡ (if expired only_ann (get_member j one) then empty_subscription else get_member j one))
purge_and_re_index-Purged_example =
    purge_and_re_index-Purged only_ann one assign_member-IsValid_example.0

abbrev no_subscriptions : Store
no_subscriptions = record { root = fresh_node; root_dollar = fresh_node }

abbrev filter : List Text
filter = codes "a" ∷ codes "+" ∷ codes "#" ∷ []

abbrev topic : List Text
topic = codes "a" ∷ codes "b" ∷ []

abbrev subscribed : Store
subscribed = add_subscription only_ann ann 0 filter [] (of_session 1) no_subscriptions

abbrev bob_publishes : Sender
bob_publishes = record {
  alive = only_ann;
  client_id = codes "bob";
  group_id = none;
  targeting = Targeting.round_robin;
  hash = λ s. length s;
}

subscribed-KeysValid : KeysValid subscribed.root
unfolding add_subscription
subscribed-KeysValid =
    (tree-KeysValid fresh_node bob_publishes filter topic
      (λ h. (add_subscriber only_ann ann 0 [] (of_session 1) h).0) (tt, tt, tt)).0

publish_recursively-total_example :
    count_where (λ r. true) (publish_recursively bob_publishes topic subscribed.root).0
    ≡ total
        (weight bob_publishes (λ r. true))
        (λ f. filter_matches f topic)
        (entries subscribed.root)
publish_recursively-total_example =
    publish_recursively-total bob_publishes (λ r. true) topic subscribed.root subscribed-KeysValid

ann_receives :
    count_where (λ r. true) (publish_recursively bob_publishes topic subscribed.root).0 ≡ 1
unfolding count_where publish_recursively add_subscription str_eq
ann_receives = refl

tree-KeysValid_example :
    KeysValid (at_deepest filter (λ h. h) fresh_node)
    × KeysValid (at_existing filter (λ h. h) fresh_node)
    × KeysValid (publish_recursively bob_publishes topic fresh_node).1
tree-KeysValid_example = tree-KeysValid fresh_node bob_publishes filter topic (λ h. h) (tt, tt, tt)
