-- ===== src/Tests/Topics.antt =====
-- Topics, filters and shared subscriptions.
use flash_mq.Base.{
  is_nil, ◌≤◌, ◌≡◌, refl, ◌&&◌, ◌||◌, not, true, false, List, [], ◌∷◌, length, arith,
}
use flash_mq.Base.Text.{Text, codes, str_eq}
use flash_mq.Base.Result.{ok, err}
use flash_mq.Topic.{
  Error, split_topic, recompose_topic, is_valid_subscribe_path, is_valid_publish_path,
  is_valid_share_name, contains_dangerous_characters, get_first_wildcard_depth,
  parse_subscription_share,
}
use flash_mq.Topic.Split.{
  levels, have_no_slash, has_no_slash, recompose-split_topic, split-recompose_topic,
}
use flash_mq.Topic.Filter.{
  filter_ok, IsDepth, all_plain, is_valid_subscribe_path-filter_ok,
  get_first_wildcard_depth-IsDepth, is_valid_publish_path_iff,
}
use flash_mq.Topic.Share.{Outcome, plain, shared, parse-shared, parse_subscription_share-Outcome}

abbrev home : List Text
home = codes "home" ∷ codes "" ∷ codes "+" ∷ codes "#" ∷ []

split_home : split_topic 5 (codes "home//+/#") ≡ ok home
unfolding split_topic
split_home = refl

recompose-split_topic_example :
    (recompose_topic home ≡ codes "home//+/#") × (have_no_slash home ≡ true) × (length home ≤ 5)
recompose-split_topic_example = recompose-split_topic 5 (codes "home//+/#") home split_home

split-recompose_topic_example : split_topic 4 (recompose_topic home) ≡ ok home
unfolding have_no_slash has_no_slash
split-recompose_topic_example =
    split-recompose_topic 4 (codes "home") (codes "" ∷ codes "+" ∷ codes "#" ∷ []) refl
      (omega arith)

is_valid_subscribe_path-filter_ok_example :
    is_valid_subscribe_path (codes "home/#/x") ≡ filter_ok (levels (codes "home/#/x"))
is_valid_subscribe_path-filter_ok_example = is_valid_subscribe_path-filter_ok (codes "home/#/x")

refused : is_valid_subscribe_path (codes "home/#/x") ≡ false
unfolding is_valid_subscribe_path
refused = refl

accepted : is_valid_subscribe_path (codes "home/+/#") ≡ true
unfolding is_valid_subscribe_path
accepted = refl

get_first_wildcard_depth-IsDepth_example : IsDepth 0 home (get_first_wildcard_depth home)
get_first_wildcard_depth-IsDepth_example = get_first_wildcard_depth-IsDepth home (omega arith)

is_valid_publish_path_iff_example :
    (is_valid_publish_path (codes "a/b")
      ≡ not (is_nil (codes "a/b")) && all_plain (levels (codes "a/b")))
    × (is_valid_publish_path (codes "a/b")
        ≡ not (is_nil (codes "a/b")) && not (contains_dangerous_characters (codes "a/b")))
    × ((not (is_valid_publish_path (codes "a/b")) || is_valid_subscribe_path (codes "a/b")) ≡ true)
is_valid_publish_path_iff_example = is_valid_publish_path_iff (codes "a/b")

parse-shared_example :
    parse_subscription_share (plain (shared (codes "group") (codes "a/#")))
    ≡ ok (record {
      subtopics = levels (codes "a/#");
      share_name = codes "group";
      topic = codes "a/#";
    })
unfolding is_valid_share_name
parse-shared_example = parse-shared (codes "group") 97 (codes "/#") refl

parse_subscription_share-Outcome_example :
    Outcome (codes "$share/group/") (parse_subscription_share (plain (codes "$share/group/")))
parse_subscription_share-Outcome_example = parse_subscription_share-Outcome (codes "$share/group/")

without_filter : parse_subscription_share (plain (codes "$share/group/")) ≡ err Error.protocol_error
unfolding parse_subscription_share levels str_eq is_valid_share_name
without_filter = refl
