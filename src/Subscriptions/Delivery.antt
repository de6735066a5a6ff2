-- ===== src/Subscriptions/Delivery.antt =====
-- subscriptionstore.cpp: publishing against the filters that are held in the tree.
use flash_mq.Base.{
  ℕ, ◌≡◌, refl, sym, ap, ◌∙◌, Bool, true, false, inl, inr, List, [], ◌∷◌, ◌++◌, is_nil, arith,
  Bool-cases,
}
use flash_mq.Base.Text.{Text, str_eq, eq_of_str_eq}
use flash_mq.Topic.{plus, pound}
use flash_mq.Subscriptions.{
  Holding, SubNode, node, Children, nil, child, Wild, absent, present, Sender, ReceivingSubscriber,
  publish_non_recursively, publish_pound, publish_child, publish_plus, publish_recursively, is_leaf,
}
use flash_mq.Subscriptions.Entries.{
  filter_matches, entries, entries_children, entries_wild, has_key, KeysValid, ChildrenValid,
  WildValid, count_where, count_where-append, total, total-same, total-none, total-entries,
  total-child, total-no_child, total-is_nil,
}

-- A level that is no wildcard stands for itself only.
plain_matches :
    (k t : Text) (ts : List Text)
    → str_eq k plus ≡ false
    → str_eq k pound ≡ false
    → str_eq k t ≡ true
    → (f : List Text) → filter_matches (k ∷ f) (t ∷ ts) ≡ filter_matches f ts
unfolding filter_matches
plain_matches k t ts a b e f = rw (a, b, e) refl

plain_differs :
    (k t : Text) (ts : List Text)
    → str_eq k plus ≡ false
    → str_eq k pound ≡ false
    → str_eq k t ≡ false
    → (f : List Text) → filter_matches (k ∷ f) (t ∷ ts) ≡ false
unfolding filter_matches
plain_differs k t ts a b e f = rw (a, b, e) refl

key_ends :
    (k : Text) (c : Children)
    → ChildrenValid c
    → has_key k c ≡ true
    → (f : List Text) → filter_matches (k ∷ f) [] ≡ false
unfolding filter_matches has_key
key_ends k nil v h f = absurd cc
key_ends k (child j n c) (a, b, new, vn, v) h f = elim (Bool-cases (str_eq j k)) [
  | inl e ↦ ground (arith, eq_of_str_eq j k e)
  | inr ne ↦ key_ends k c v (ground arith) f
]

plus_ends : (f : List Text) → filter_matches (plus ∷ f) [] ≡ false
unfolding filter_matches str_eq
plus_ends f = refl

pound_ends : (f : List Text) → filter_matches (pound ∷ f) [] ≡ is_nil f
unfolding filter_matches str_eq
pound_ends f = refl

plus_level :
    (t : Text) (ts f : List Text) → filter_matches (plus ∷ f) (t ∷ ts) ≡ filter_matches f ts
unfolding filter_matches str_eq
plus_level t ts f = refl

pound_level : (t : Text) (ts f : List Text) → filter_matches (pound ∷ f) (t ∷ ts) ≡ is_nil f
unfolding filter_matches str_eq
pound_level t ts f = refl

-- Delivery, counted by a test on the receivers.
module _ (sender : Sender) (q : ReceivingSubscriber → Bool) where
  abbrev pub weight : Holding → ℕ
  weight h = count_where q (publish_non_recursively sender h).0

  pound-total :
      (g : Wild) → count_where q (publish_pound sender g).0 ≡ total weight is_nil (entries_wild g)
  unfolding publish_pound count_where total entries
  pound-total absent = refl
  pound-total (present (node h c p g)) = sym (total-is_nil weight (node h c p g) h c p g refl)

  no_children : (m : List Text → Bool) → 0 ≡ total weight m (entries_children nil)
  unfolding total entries
  no_children m = refl

  -- No child of that name.
  no_child-total :
      (t : Text) (ts : List Text) (c : Children)
      → ChildrenValid c
      → has_key t c ≡ false
      → total weight (λ f. filter_matches f (t ∷ ts)) (entries_children c) ≡ 0
  unfolding total entries has_key filter_matches
  no_child-total t ts nil v h = refl
  no_child-total t ts (child k n c) (a, b, _, _, v) h = omega (
    arith,
    total-child weight (λ f. filter_matches f (t ∷ ts)) k n c,
    total-none weight (λ f. filter_matches (k ∷ f) (t ∷ ts)) (entries n) (λ f. ground arith),
    no_child-total t ts c v (ground arith),
  )

  child-total :
      (t : Text) (ts : List Text) (f : SubNode → List ReceivingSubscriber × SubNode) (c : Children)
      → ((n : SubNode)
          → KeysValid n
          → count_where q (f n).0 ≡ total weight (λ g. filter_matches g ts) (entries n))
      → ChildrenValid c
      → count_where q (publish_child f t c).0
        ≡ total weight (λ g. filter_matches g (t ∷ ts)) (entries_children c)
  unfolding publish_child count_where
  child-total t ts f nil ih v = no_children (λ g. filter_matches g (t ∷ ts))
  child-total t ts f (child k n c) ih (a, b, new, vn, v) =
      let m = λ (g : List Text). filter_matches g (t ∷ ts) in
      elim (Bool-cases (str_eq k t)) [
        | inl e ↦ rw e (
            omega (
              arith,
              ih n vn,
              total-child weight m k n c,
              total-same weight (λ g. filter_matches (k ∷ g) (t ∷ ts)) (λ g. filter_matches g ts)
                  (entries n) (plain_matches k t ts a b e),
              no_child-total t ts c v (ap (λ j. has_key j c) (sym (eq_of_str_eq k t e)) ∙ new),
            ))
        | inr ne ↦ rw ne (
            omega (
              arith,
              child-total t ts f c ih v,
              total-child weight m k n c,
              total-none weight (λ g. filter_matches (k ∷ g) (t ∷ ts)) (entries n)
                  (plain_differs k t ts a b ne),
            ))
      ]

  plus-total :
      (ts : List Text) (f : SubNode → List ReceivingSubscriber × SubNode) (p : Wild)
      → ((n : SubNode)
          → KeysValid n
          → count_where q (f n).0 ≡ total weight (λ g. filter_matches g ts) (entries n))
      → WildValid p
      → count_where q (publish_plus f p).0
        ≡ total weight (λ g. filter_matches g ts) (entries_wild p)
  unfolding count_where total entries
  plus-total ts f absent ih v = refl
  plus-total ts f (present n) ih v = ih n v

  leaf-total :
      (h : Holding) (c : Children) (p g : Wild) (t : Text) (ts : List Text)
      → is_leaf c p g ≡ true
      → total weight (λ f. filter_matches f (t ∷ ts)) (entries (node h c p g)) ≡ 0
  unfolding total entries filter_matches
  leaf-total h nil absent absent t ts e = refl
  leaf-total h nil absent (present n) t ts e = absurd cc
  leaf-total h nil (present m) g t ts e = absurd cc
  leaf-total h (child k n c) p g t ts e = absurd cc

  -- For every test on receivers, publishing to a topic finds as many of them as publishing at each
  -- entry of the tree with a filter that matches the topic, and at no other.
  pub publish_recursively-total :
      (ts : List Text) (n : SubNode)
      → KeysValid n
      → count_where q (publish_recursively sender ts n).0
        ≡ total weight (λ f. filter_matches f ts) (entries n)
  unfolding publish_recursively count_where total entries filter_matches
  publish_recursively-total [] (node h c p g) (vc, vp, vg) =
      let m = λ (f : List Text). filter_matches f [] in
      omega (
        arith,
        count_where-append q (publish_non_recursively sender h).0 (publish_pound sender g).0,
        pound-total g,
        total-entries weight m h c p g,
        total-no_child weight m c (λ k e f. key_ends k c vc e f),
        total-none weight (λ f. filter_matches (plus ∷ f) []) (entries_wild p) plus_ends,
        total-same weight (λ f. filter_matches (pound ∷ f) []) is_nil (entries_wild g) pound_ends,
      )
  publish_recursively-total (t ∷ ts) (node h c p g) (vc, vp, vg) =
      let m = λ (f : List Text). filter_matches f (t ∷ ts) in
      elim (Bool-cases (is_leaf c p g)) [
        | inl leaf ↦ rw leaf (sym (leaf-total h c p g t ts leaf))
        | inr inner ↦ rw inner (
            omega (
              arith,
              count_where-append q (publish_pound sender g).0 (
                  (publish_plus (publish_recursively sender ts) p).0
                  ++ (publish_child (publish_recursively sender ts) t c).0),
              count_where-append q (publish_plus (publish_recursively sender ts) p).0
                  (publish_child (publish_recursively sender ts) t c).0,
              pound-total g,
              plus-total ts (publish_recursively sender ts) p (publish_recursively-total ts) vp,
              child-total t ts (publish_recursively sender ts) c (publish_recursively-total ts) vc,
              total-entries weight m h c p g,
              total-same weight (λ f. filter_matches (plus ∷ f) (t ∷ ts)) (λ f. filter_matches f ts)
                  (entries_wild p) (plus_level t ts),
              total-same weight (λ f. filter_matches (pound ∷ f) (t ∷ ts)) is_nil (entries_wild g)
                  (pound_level t ts),
            ))
      ]
