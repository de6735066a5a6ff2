-- ===== src/Topic/Share.antt =====
-- `parseSubscriptionShare`: which filters name a shared subscription, and what it makes of them.
use flash_mq.Base.{
  ℕ, ◌≡◌, refl, sym, ap, ◌∙◌, Bool, true, false, ◌⊎◌, inl, inr, ◌≢◌, List, [], ◌∷◌, ◌++◌, arith,
  Bool-cases,
}
use flash_mq.Base.Text.{Text, str_eq, eq_of_str_eq, str_eq_refl}
use flash_mq.Base.Result.{Result, ok, err}
use flash_mq.Topic.{
  Error, protocol_error, slash, share_prefix, Subscribed, share_cases, is_empty_filter, share_chars,
  is_valid_share_name, parse_subscription_share,
}
use flash_mq.Topic.Split.{
  levels, levels_cons, levels-append, levels-join, join, join-levels, has_no_slash, have_no_slash,
  levels-have_no_slash, recompose_topic-join,
}

-- The arguments with which a SUBSCRIBE calls it: the filter as it came, and its levels.
abbrev pub plain : Text → Subscribed
plain s = record { subtopics = levels s; share_name = []; topic = s }

-- The filter for a share name and the filter of the members.
abbrev pub shared : Text → Text → Text
shared name filter = share_prefix ++ slash ∷ name ++ slash ∷ filter

share_chars-has_no_slash : (s : Text) → share_chars s ≡ true → has_no_slash s ≡ true
unfolding share_chars has_no_slash
share_chars-has_no_slash [] h = refl
share_chars-has_no_slash (c ∷ s) h = ground (arith, share_chars-has_no_slash s)

is_valid_share_name-has_no_slash : (s : Text) → is_valid_share_name s ≡ true → has_no_slash s ≡ true
unfolding is_valid_share_name
is_valid_share_name-has_no_slash [] h = cc
is_valid_share_name-has_no_slash (c ∷ s) h = share_chars-has_no_slash (c ∷ s) h

is_empty_filter_cons : (c : ℕ) (l : Text) (ls : List Text) → is_empty_filter ((c ∷ l) ∷ ls) ≡ false
unfolding is_empty_filter
is_empty_filter_cons c l [] = refl
is_empty_filter_cons c l (m ∷ ls) = refl

is_empty_filter_two : (l m : Text) (ls : List Text) → is_empty_filter (l ∷ m ∷ ls) ≡ false
unfolding is_empty_filter
is_empty_filter_two [] m ls = refl
is_empty_filter_two (c ∷ l) m ls = refl

is_empty_filter-levels : (c : ℕ) (s : Text) → is_empty_filter (levels (c ∷ s)) ≡ false
unfolding levels
is_empty_filter-levels c s =
    let (l, ls, e) = levels_cons s in
    ground (arith, e, is_empty_filter_cons c l ls, is_empty_filter_two [] l ls)

share_cases-shared :
    (args : Subscribed) (name : Text) (ls : List Text)
    → is_valid_share_name name ≡ true
    → is_empty_filter ls ≡ false
    → share_cases args (share_prefix ∷ name ∷ ls)
      ≡ ok (record { subtopics = ls; share_name = name; topic = join ls })
unfolding share_cases
share_cases-shared args name [] valid full = cc
share_cases-shared args name (l ∷ ls) valid full =
    ground (arith, str_eq_refl share_prefix, recompose_topic-join (l ∷ ls))

levels-shared :
    (name filter : Text)
    → has_no_slash name ≡ true
    → levels (shared name filter) ≡ share_prefix ∷ name ∷ levels filter
unfolding has_no_slash
levels-shared name filter h =
    levels-append share_prefix (name ++ slash ∷ filter) refl
    ∙ ap (λ ls. share_prefix ∷ ls) (levels-append name filter h)

-- A filter `$share/name/filter` with a valid name and a filter that is not empty is split into
-- both, and the levels are those of the inner filter.
pub parse-shared :
    (name : Text) (c : ℕ) (s : Text)
    → is_valid_share_name name ≡ true
    → parse_subscription_share (plain (shared name (c ∷ s)))
      ≡ ok (record { subtopics = levels (c ∷ s); share_name = name; topic = c ∷ s })
unfolding parse_subscription_share
parse-shared name c s valid =
    let args = plain (shared name (c ∷ s)) in
    ap (share_cases args) (levels-shared name (c ∷ s) (is_valid_share_name-has_no_slash name valid))
    ∙ share_cases-shared args name (levels (c ∷ s)) valid (is_empty_filter-levels c s)
    ∙ ground (arith, join-levels (c ∷ s))

join-ne-nil : (ls : List Text) → is_empty_filter ls ≡ false → join ls ≢ []
unfolding is_empty_filter join
join-ne-nil [] h = cc
join-ne-nil ([] ∷ []) h = cc
join-ne-nil ((c ∷ l) ∷ []) h = λ e. cc
join-ne-nil ([] ∷ m ∷ ls) h = λ e. cc
join-ne-nil ((c ∷ l) ∷ m ∷ ls) h = λ e. cc

-- The first of at least two levels is `$share`.
abbrev pub is_shared : List Text → Bool
is_shared [] = false
is_shared (l ∷ []) = false
is_shared (l ∷ m ∷ ls) = str_eq l share_prefix

-- What comes of a filter: it is left alone, it is taken apart, or it is refused.
abbrev pub Outcome : Text → Result Error Subscribed → Type 0
Outcome s (ok r) =
    ((is_shared (levels s) ≡ false) × (r ≡ plain s))
    ⊎ ((is_shared (levels s) ≡ true)
        × (is_valid_share_name r.share_name ≡ true)
        × (s ≡ shared r.share_name r.topic)
        × (r.subtopics ≡ levels r.topic)
        × (r.topic ≢ []))
Outcome s (err e) = (is_shared (levels s) ≡ true) × (e ≡ protocol_error)

taken_apart :
    (s name : Text) (ls : List Text)
    → levels s ≡ share_prefix ∷ name ∷ ls
    → is_empty_filter ls ≡ false
    → (s ≡ shared name (join ls)) × (levels (join ls) ≡ ls)
unfolding join have_no_slash is_empty_filter
taken_apart s name [] e h = cc
taken_apart s name (n ∷ ls) e h =
    (sym (join-levels s) ∙ ap join e, levels-join n ls (ground (arith, levels-have_no_slash s)))

share_cases-Outcome :
    (s : Text) (ls : List Text) → levels s ≡ ls → Outcome s (share_cases (plain s) ls)
unfolding share_cases
share_cases-Outcome s [] e = inl (ground arith, refl)
share_cases-Outcome s (l ∷ []) e = inl (ground arith, refl)
share_cases-Outcome s (l ∷ m ∷ []) e = ground arith
share_cases-Outcome s (l ∷ m ∷ n ∷ ls) e = elim (Bool-cases (str_eq l share_prefix)) [
  | inl same ↦ elim (Bool-cases (is_valid_share_name m)) [
    | inr bad ↦ rw (same, bad) (ground (arith, e))
    | inl valid ↦ elim (Bool-cases (is_empty_filter (n ∷ ls))) [
      | inl empty ↦ rw (same, valid, empty) (ground (arith, e))
      | inr full ↦
          let e' = e ∙ ap (λ k. k ∷ m ∷ n ∷ ls) (eq_of_str_eq l share_prefix same) in
          let (whole, inner) = taken_apart s m (n ∷ ls) e' full in
          rw (same, valid, full, recompose_topic-join (n ∷ ls))
            (inr (ground (arith, e), valid, whole, sym inner, join-ne-nil (n ∷ ls) full))
    ]
  ]
  | inr other ↦ rw other (inl (ground (arith, e), refl))
]

-- `parseSubscriptionShare`, given a filter with its levels, leaves a filter alone that does not
-- begin with the level `$share` and another level; else it throws, or returns a valid share name
-- and a filter that is not empty, with the levels of that filter, from which the text came.
pub parse_subscription_share-Outcome : (s : Text) → Outcome s (parse_subscription_share (plain s))
unfolding parse_subscription_share
parse_subscription_share-Outcome s = share_cases-Outcome s (levels s) refl
