-- ===== src/Topic/Filter.antt =====
-- `isValidSubscribePath`, a loop over characters, against the rule on levels that it stands for.
use flash_mq.Base.{
  is_nil, ℕ, ◌+◌, ◌%◌, ◌≤◌, ◌≡◌, refl, Bool, true, false, not, ◌&&◌, ◌||◌, List, [], ◌∷◌, length,
  arith, suc, ◌⊎◌, inl, inr, Bool-cases, get_elem?, take, none, some,
}
use flash_mq.Base.Text.{Text, str_eq}
use flash_mq.Topic.{
  plus, pound, no_wildcards, is_valid_publish_path, contains_dangerous_characters, subscribe_loop,
  is_valid_subscribe_path, wildcard_depth_loop, get_first_wildcard_depth, no_depth,
}
use flash_mq.Topic.Split.{levels, levels_cons}

-- `+` on its own, or no wildcard.
abbrev pub level_ok : Text → Bool
level_ok l = str_eq l plus || no_wildcards l

-- Besides, the last level may be `#` on its own.
unfoldable pub filter_ok : List Text → Bool
filter_ok [] = true
filter_ok (l ∷ []) = str_eq l pound || level_ok l
filter_ok (l ∷ m ∷ ls) = level_ok l && filter_ok (m ∷ ls)

-- What is left of a filter, inside a level with no wildcard.
abbrev rest_ok : List Text → Bool
rest_ok [] = true
rest_ok (m ∷ ls) = filter_ok (m ∷ ls)

abbrev in_word : List Text → Bool
in_word [] = true
in_word (l ∷ ls) = no_wildcards l && rest_ok ls

abbrev after_plus : List Text → Bool
after_plus [] = true
after_plus (l ∷ ls) = is_nil l && rest_ok ls

abbrev after_pound : List Text → Bool
after_pound [] = true
after_pound (l ∷ ls) = is_nil l && is_nil ls

subscribe_loop_pound : (s : Text) → subscribe_loop false false true s ≡ after_pound (levels s)
unfolding subscribe_loop levels
subscribe_loop_pound [] = refl
subscribe_loop_pound (c ∷ s) = let (l, ls, e) = levels_cons s in ground (arith, e)

record Scanned (s : Text) : Type 0 where
  at_start : subscribe_loop true false false s ≡ filter_ok (levels s)
  at_word : subscribe_loop false false false s ≡ in_word (levels s)
  at_plus : subscribe_loop false true false s ≡ after_plus (levels s)

scan : (s : Text) → Scanned s
unfolding subscribe_loop levels filter_ok no_wildcards str_eq
scan [] = record { at_start = refl; at_word = refl; at_plus = refl }
scan (c ∷ s) =
    let (l, ls, e) = levels_cons s in
    let ih = scan s in
    record {
      at_start = ground (arith, e, ih.at_start, ih.at_word, ih.at_plus, subscribe_loop_pound s);
      at_word = ground (arith, e, ih.at_start, ih.at_word);
      at_plus = ground (arith, e, ih.at_start);
    }

-- `isValidSubscribePath` accepts a text exactly when each of its levels is `+` or has no wildcard,
-- except that the last may also be `#`.
pub is_valid_subscribe_path-filter_ok :
    (s : Text) → is_valid_subscribe_path s ≡ filter_ok (levels s)
unfolding is_valid_subscribe_path
is_valid_subscribe_path-filter_ok s = (scan s).at_start

unfoldable pub is_wild : Text → Bool
is_wild s = str_eq s pound || str_eq s plus

-- No level is `#` or `+`.
unfoldable pub none_wild : List Text → Bool
none_wild [] = true
none_wild (l ∷ ls) = not (is_wild l) && none_wild ls

-- The level at a position is `#` or `+`.
abbrev pub wild_at : List Text → ℕ → Bool
wild_at ls k = elim (get_elem? ls k) [ none ↦ false | some l ↦ is_wild l ]

-- `d` counts the levels before the first wildcard, from `i` on; without one it is `no_depth`.
abbrev pub IsDepth : ℕ → List Text → ℕ → Type 0
IsDepth i ls d =
    ((none_wild ls ≡ true) × (d ≡ no_depth))
    ⊎ ((k : ℕ) × (d ≡ i + k) × (none_wild (take k ls) ≡ true) × (wild_at ls k ≡ true))

wildcard_depth_loop-IsDepth :
    (i : ℕ) (ls : List Text) → i + length ls ≤ no_depth → IsDepth i ls (wildcard_depth_loop i ls)
unfolding wildcard_depth_loop none_wild is_wild
wildcard_depth_loop-IsDepth i [] h = inl (refl, refl)
wildcard_depth_loop-IsDepth i (l ∷ ls) h =
    let e : (i + 1) % 65536 ≡ i + 1 = omega arith in
    elim (Bool-cases (is_wild l)) [
      | inl w ↦ inr (0, ground arith, refl, w)
      | inr w ↦ elim (wildcard_depth_loop-IsDepth (i + 1) ls (omega arith)) [
        | inl (plain, d) ↦ inl (ground arith, ground arith)
        | inr (k, d, before, found) ↦ inr (suc k, ground arith, ground arith, found)
      ]
    ]

-- For a filter of at most 65535 levels, `getFirstWildcardDepth` returns the number of levels before
-- the first one that is `#` or `+`, and 65535 if there is none.
pub get_first_wildcard_depth-IsDepth :
    (ls : List Text) → length ls ≤ no_depth → IsDepth 0 ls (get_first_wildcard_depth ls)
unfolding get_first_wildcard_depth
get_first_wildcard_depth-IsDepth ls h = wildcard_depth_loop-IsDepth 0 ls (omega arith)

unfoldable pub all_plain : List Text → Bool
all_plain [] = true
all_plain (l ∷ ls) = no_wildcards l && all_plain ls

all_plain-levels : (s : Text) → all_plain (levels s) ≡ no_wildcards s
unfolding all_plain levels no_wildcards
all_plain-levels [] = refl
all_plain-levels (c ∷ s) = let (l, ls, e) = levels_cons s in ground (arith, e, all_plain-levels s)

contains_dangerous_characters-no_wildcards :
    (s : Text) → contains_dangerous_characters s ≡ not (no_wildcards s)
unfolding contains_dangerous_characters no_wildcards
contains_dangerous_characters-no_wildcards [] = refl
contains_dangerous_characters-no_wildcards (c ∷ s) =
    ground (arith, contains_dangerous_characters-no_wildcards s)

all_plain-filter_ok : (ls : List Text) → all_plain ls ≡ true → filter_ok ls ≡ true
unfolding all_plain filter_ok
all_plain-filter_ok [] h = refl
all_plain-filter_ok (l ∷ []) h = ground arith
all_plain-filter_ok (l ∷ m ∷ ls) h = ground (arith, all_plain-filter_ok (m ∷ ls))

-- `isValidPublishPath` accepts exactly the texts that are not empty and have no wildcard in any
-- level, which are those without a dangerous character; each of them is a valid filter too.
pub is_valid_publish_path_iff :
    (s : Text)
    → (is_valid_publish_path s ≡ not (is_nil s) && all_plain (levels s))
      × (is_valid_publish_path s ≡ not (is_nil s) && not (contains_dangerous_characters s))
      × ((not (is_valid_publish_path s) || is_valid_subscribe_path s) ≡ true)
unfolding is_valid_publish_path
is_valid_publish_path_iff [] = (refl, refl, refl)
is_valid_publish_path_iff (c ∷ s) =
    let a = all_plain-levels (c ∷ s) in
    let b = contains_dangerous_characters-no_wildcards (c ∷ s) in
    (
      ground arith,
      ground arith,
      ground
          (arith, is_valid_subscribe_path-filter_ok (c ∷ s), all_plain-filter_ok (levels (c ∷ s))),
    )
