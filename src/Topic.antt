-- ===== src/Topic.antt =====
-- Topic names and topic filters: the routines on them in utils.cpp.
pub mod Split
pub mod Filter
pub mod Share
use flash_mq.Base.{
  ℕ, zero, suc, ◌+◌, ◌%◌, ◌≡◌, Bool, true, false, not, ◌&&◌, ◌||◌, List, [], ◌∷◌, ◌++◌, Option,
  none, some, length, ltb, ◌==◌, if◌then◌else◌,
}
use flash_mq.Base.Text.{Text, str_eq, codes}
use flash_mq.Base.Result.{Result, ok, err, ◌>>=◌, ◌>>◌, throw_if}

-- What these routines throw: `std::runtime_error`, and `ProtocolError` with its reason code.
pub data Error : Type 0 where
  too_many_levels : Error
  protocol_error : Error

abbrev pub slash : ℕ
slash = b'/'

abbrev pub plus : Text
plus = b'+' ∷ []

abbrev pub pound : Text
pound = b'#' ∷ []

abbrev pub is_wildcard : ℕ → Bool
is_wildcard c = c == b'#' || c == b'+'

pub no_wildcards : Text → Bool
no_wildcards [] = true
no_wildcards (c ∷ s) = if is_wildcard c then false else no_wildcards s

unfoldable pub is_valid_publish_path : Text → Bool
unfolding no_wildcards
is_valid_publish_path [] = false
is_valid_publish_path (c ∷ s) = no_wildcards (c ∷ s)

unfoldable pub contains_dangerous_characters : Text → Bool
contains_dangerous_characters [] = false
contains_dangerous_characters (c ∷ s) =
    if c == b'#' then true else if c == b'+' then true else contains_dangerous_characters s

-- The loop of `isValidSubscribePath`, over its three flags.
pub subscribe_loop : Bool → Bool → Bool → Text → Bool
subscribe_loop wildcard_allowed next_must_be_slash pound_seen [] = true
subscribe_loop wildcard_allowed next_must_be_slash pound_seen (c ∷ s) =
    let rest = subscribe_loop (c == b'/') (c == b'+') (c == b'#') s in
    if not wildcard_allowed && (c == b'+' || c == b'#')
    then false
    else if next_must_be_slash && not (c == b'/')
    then false
    else if pound_seen
    then false
    else rest

unfoldable pub is_valid_subscribe_path : Text → Bool
unfolding subscribe_loop
is_valid_subscribe_path s = subscribe_loop true false false s

pub share_chars : Text → Bool
share_chars [] = true
share_chars (c ∷ s) = if c == b'#' || (c == b'+' || c == b'/') then false else share_chars s

unfoldable pub is_valid_share_name : Text → Bool
unfolding share_chars
is_valid_share_name [] = false
is_valid_share_name (c ∷ s) = share_chars (c ∷ s)

-- `std::find(start, end, sep)`: the text before the separator, and the text behind it, if it is
-- there.
pub find_sep : ℕ → Text → Text × Option Text
find_sep sep [] = ([], none)
find_sep sep (c ∷ s) =
    let (before, behind) = find_sep sep s in if c == sep then ([], some s) else (c ∷ before, behind)

-- The `do` loop of `splitTopic`, a round for each level.
pub split_loop : ℕ → Text → List Text
unfolding find_sep
split_loop zero s = []
split_loop (suc fuel) s =
    let (level, behind) = find_sep slash s in
    level ∷ elim behind [ none ↦ [] | some rest ↦ split_loop fuel rest ]

-- `limit` is `max_topic_split_depth`, or 65535 on a thread without settings.
unfoldable pub split_topic : ℕ → Text → Result Error (List Text)
unfolding split_loop
split_topic limit s =
    let output = split_loop (suc (length s)) s in
    if ltb limit (length output) then err too_many_levels else ok output

pub recompose_loop : List Text → Text → Text
recompose_loop [] result = result
recompose_loop (s ∷ subtopics) result = recompose_loop subtopics (result ++ slash ∷ s)

pub recompose_topic : List Text → Text
unfolding recompose_loop
recompose_topic [] = []
recompose_topic (s ∷ subtopics) = recompose_loop subtopics s

abbrev pub no_depth : ℕ
no_depth = 65535

-- The loop of `getFirstWildcardDepth`; `i` is a `uint16_t`.
pub wildcard_depth_loop : ℕ → List Text → ℕ
wildcard_depth_loop i [] = no_depth
wildcard_depth_loop i (s ∷ subtopics) =
    let rest = wildcard_depth_loop ((i + 1) % 65536) subtopics in
    if str_eq s pound || str_eq s plus then i else rest

pub get_first_wildcard_depth : List Text → ℕ
unfolding wildcard_depth_loop
get_first_wildcard_depth subtopics = wildcard_depth_loop 0 subtopics

abbrev pub share_prefix : Text
share_prefix = codes "$share"

-- The arguments of `parseSubscriptionShare`, which it changes in place.
pub record Subscribed : Type 0 where
  pub subtopics : List Text
  pub share_name : Text
  pub topic : Text

-- `!(subtopics.size() > 1 || (subtopics.size() == 1 && !subtopics[0].empty()))`
pub is_empty_filter : List Text → Bool
is_empty_filter [] = true
is_empty_filter ([] ∷ []) = true
is_empty_filter ((c ∷ s) ∷ []) = false
is_empty_filter (s ∷ t ∷ ts) = false

share_cases : Subscribed → List Text → Result Error Subscribed
unfolding is_empty_filter recompose_topic
share_cases args (first ∷ name ∷ third ∷ rest) =
    if not (str_eq first share_prefix) then ok args else do
      throw_if (not (is_valid_share_name name)) protocol_error
      throw_if (is_empty_filter (third ∷ rest)) protocol_error
      ok (record {
        subtopics = third ∷ rest;
        share_name = name;
        topic = recompose_topic (third ∷ rest);
      })
share_cases args (first ∷ second ∷ []) =
    if str_eq first share_prefix then err protocol_error else ok args
share_cases args (first ∷ []) = ok args
share_cases args [] = ok args

unfoldable pub parse_subscription_share : Subscribed → Result Error Subscribed
unfolding share_cases
parse_subscription_share args = share_cases args args.subtopics
