-- ===== src/Subscriptions/Keys.antt =====
-- subscriptionstore.cpp: the invariant of the names of nodes.
use flash_mq.Base.{◌≡◌, refl, ◌∙◌, false, ◌||◌, inl, inr, List, [], ◌∷◌, arith, Bool-cases}
use flash_mq.Base.Text.{Text, str_eq, str_eq_iff}
use flash_mq.Topic.{plus, pound}
use flash_mq.Subscriptions.{
  Holding, SubNode, node, Children, nil, child, Wild, absent, present, fresh_node, on_child,
  on_wild, at_deepest, on_existing_child, on_existing_wild, at_existing, Sender,
  ReceivingSubscriber, publish_pound, publish_child, publish_plus, publish_recursively, is_leaf,
}
use flash_mq.Subscriptions.Entries.{has_key, KeysValid, ChildrenValid, WildValid}

has_key-on_child :
    (j k : Text) (r : SubNode → SubNode) (c : Children)
    → has_key j (on_child r k c) ≡ str_eq k j || has_key j c
unfolding has_key on_child
has_key-on_child j k r nil = ground arith
has_key-on_child j k r (child l n c) =
    ground (arith, has_key-on_child j k r c, str_eq_iff l k, str_eq_iff k j, str_eq_iff l j)

has_key-on_existing_child :
    (j k : Text) (r : SubNode → SubNode) (c : Children)
    → has_key j (on_existing_child r k c) ≡ has_key j c
unfolding has_key on_existing_child
has_key-on_existing_child j k r nil = refl
has_key-on_existing_child j k r (child l n c) = ground (arith, has_key-on_existing_child j k r c)

module _ (k : Text) (r : SubNode → SubNode)
    (keeps : (n : SubNode) → KeysValid n → KeysValid (r n)) where
  on_child-ChildrenValid :
      (c : Children)
      → str_eq k plus ≡ false
      → str_eq k pound ≡ false
      → ChildrenValid c
      → ChildrenValid (on_child r k c)
  unfolding on_child has_key
  on_child-ChildrenValid nil a b v = (a, b, refl, keeps fresh_node (tt, tt, tt), tt)
  on_child-ChildrenValid (child j n c) a b (a', b', new, vn, vc) = elim (Bool-cases (str_eq j k)) [
    | inl e ↦ rw e (a', b', new, keeps n vn, vc)
    | inr ne ↦ rw ne (
      a',
      b',
      ground (arith, has_key-on_child j k r c, str_eq_iff k j, str_eq_iff j k),
      vn,
      on_child-ChildrenValid c a b vc,
    )
  ]

  on_existing_child-ChildrenValid :
      (c : Children) → ChildrenValid c → ChildrenValid (on_existing_child r k c)
  unfolding on_existing_child has_key
  on_existing_child-ChildrenValid nil v = tt
  on_existing_child-ChildrenValid (child j n c) (a', b', new, vn, vc) =
      elim (Bool-cases (str_eq j k)) [
        | inl e ↦ rw e (a', b', new, keeps n vn, vc)
        | inr ne ↦ rw ne (
          a',
          b',
          has_key-on_existing_child j k r c ∙ new,
          vn,
          on_existing_child-ChildrenValid c vc,
        )
      ]

  on_wild-WildValid : (w : Wild) → WildValid w → WildValid (on_wild r w)
  on_wild-WildValid absent v = keeps fresh_node (tt, tt, tt)
  on_wild-WildValid (present n) v = keeps n v

  on_existing_wild-WildValid : (w : Wild) → WildValid w → WildValid (on_existing_wild r w)
  on_existing_wild-WildValid absent v = tt
  on_existing_wild-WildValid (present n) v = keeps n v

at_deepest-KeysValid :
    (f : List Text) (u : Holding → Holding) (n : SubNode)
    → KeysValid n
    → KeysValid (at_deepest f u n)
unfolding at_deepest
at_deepest-KeysValid [] u (node h c p g) v = v
at_deepest-KeysValid (s ∷ f) u (node h c p g) (vc, vp, vg) =
    let rest = at_deepest f u in
    let keeps = at_deepest-KeysValid f u in
    elim (Bool-cases (str_eq s pound)) [
      | inl e ↦ rw e (vc, vp, on_wild-WildValid s rest keeps g vg)
      | inr b ↦ elim (Bool-cases (str_eq s plus)) [
        | inl e ↦ rw (b, e) (vc, on_wild-WildValid s rest keeps p vp, vg)
        | inr a ↦ rw (b, a) (on_child-ChildrenValid s rest keeps c a b vc, vp, vg)
      ]
    ]

at_existing-KeysValid :
    (f : List Text) (u : Holding → Holding) (n : SubNode)
    → KeysValid n
    → KeysValid (at_existing f u n)
unfolding at_existing
at_existing-KeysValid [] u (node h c p g) v = v
at_existing-KeysValid (s ∷ f) u (node h c p g) (vc, vp, vg) =
    let rest = at_existing f u in
    let keeps = at_existing-KeysValid f u in
    elim (Bool-cases (str_eq s pound)) [
      | inl e ↦ rw e (vc, vp, on_existing_wild-WildValid s rest keeps g vg)
      | inr b ↦ elim (Bool-cases (str_eq s plus)) [
        | inl e ↦ rw (b, e) (vc, on_existing_wild-WildValid s rest keeps p vp, vg)
        | inr a ↦ rw (b, a) (on_existing_child-ChildrenValid s rest keeps c vc, vp, vg)
      ]
    ]

module _ (f : SubNode → List ReceivingSubscriber × SubNode)
    (keeps : (n : SubNode) → KeysValid n → KeysValid (f n).1) where
  has_key-publish_child :
      (j t : Text) (c : Children) → has_key j (publish_child f t c).1 ≡ has_key j c
  unfolding has_key publish_child
  has_key-publish_child j t nil = refl
  has_key-publish_child j t (child k n c) = ground (arith, has_key-publish_child j t c)

  publish_child-ChildrenValid :
      (t : Text) (c : Children) → ChildrenValid c → ChildrenValid (publish_child f t c).1
  unfolding publish_child
  publish_child-ChildrenValid t nil v = tt
  publish_child-ChildrenValid t (child k n c) (a, b, new, vn, vc) = elim (Bool-cases (str_eq k t)) [
    | inl e ↦ rw e (a, b, new, keeps n vn, vc)
    | inr ne ↦
        rw ne (a, b, has_key-publish_child k t c ∙ new, vn, publish_child-ChildrenValid t c vc)
  ]

  publish_plus-WildValid : (w : Wild) → WildValid w → WildValid (publish_plus f w).1
  publish_plus-WildValid absent v = tt
  publish_plus-WildValid (present n) v = keeps n v

publish_pound-WildValid :
    (sender : Sender) (w : Wild) → WildValid w → WildValid (publish_pound sender w).1
unfolding publish_pound
publish_pound-WildValid sender absent v = tt
publish_pound-WildValid sender (present (node h c p g)) v = v

publish_recursively-KeysValid :
    (sender : Sender) (ts : List Text) (n : SubNode)
    → KeysValid n
    → KeysValid (publish_recursively sender ts n).1
unfolding publish_recursively
publish_recursively-KeysValid sender [] (node h c p g) (vc, vp, vg) =
    (vc, vp, publish_pound-WildValid sender g vg)
publish_recursively-KeysValid sender (t ∷ ts) (node h c p g) (vc, vp, vg) =
    let f = publish_recursively sender ts in
    let keeps = publish_recursively-KeysValid sender ts in
    elim (Bool-cases (is_leaf c p g)) [
      | inl leaf ↦ rw leaf (vc, vp, vg)
      | inr inner ↦ rw inner (
        publish_child-ChildrenValid f keeps t c vc,
        publish_plus-WildValid f keeps p vp,
        publish_pound-WildValid sender g vg,
      )
    ]

-- Subscribing, unsubscribing and publishing keep the invariant of the tree: the children of every
-- node have different names, none of which is a wildcard.
pub tree-KeysValid :
    (n : SubNode) (sender : Sender) (f ts : List Text) (u : Holding → Holding)
    → KeysValid n
    → KeysValid (at_deepest f u n)
      × KeysValid (at_existing f u n)
      × KeysValid (publish_recursively sender ts n).1
tree-KeysValid n sender f ts u v = (
  at_deepest-KeysValid f u n v,
  at_existing-KeysValid f u n v,
  publish_recursively-KeysValid sender ts n v,
)
