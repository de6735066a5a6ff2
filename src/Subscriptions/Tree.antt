-- ===== src/Subscriptions/Tree.antt =====
-- subscriptionstore.cpp: what the tree of subscriptions holds under each filter.
use flash_mq.Base.{
  ◌≡◌, refl, sym, ap, ◌∙◌, Bool, true, false, ◌&&◌, List, [], ◌∷◌, Option, if◌then◌else◌, arith,
}
use flash_mq.Base.Text.{Text, str_eq, str_eq_iff}
use flash_mq.Base.Dict.{lookup}
use flash_mq.Shared.{Subscription}
use flash_mq.Topic.{plus, pound}
use flash_mq.Subscriptions.{
  Store, is_dollar, Holding, SubNode, node, Children, nil, child, Wild, absent, present, nobody,
  fresh_node, on_child, on_wild, at_deepest,
}

-- What is held under a filter: nobody, if there is no node for it.
unfoldable mutual
  pub held : List Text → SubNode → Holding
  held [] (node h c p g) = h
  held (s ∷ f) (node h c p g) =
      let wild_pound = held_wild f g in
      let wild_plus = held_wild f p in
      let plain = held_child s f c in
      if str_eq s pound then wild_pound else if str_eq s plus then wild_plus else plain

  pub held_wild : List Text → Wild → Holding
  held_wild f absent = nobody
  held_wild f (present n) = held f n

  pub held_child : Text → List Text → Children → Holding
  held_child s f nil = nobody
  held_child s f (child k n c) =
      let here = held f n in let there = held_child s f c in if str_eq k s then here else there

unfoldable pub same_filter : List Text → List Text → Bool
same_filter [] [] = true
same_filter [] (t ∷ g) = false
same_filter (s ∷ f) [] = false
same_filter (s ∷ f) (t ∷ g) = str_eq s t && same_filter f g

held-fresh : (f : List Text) → held f fresh_node ≡ nobody
unfolding held
held-fresh [] = refl
held-fresh (s ∷ f) = ground arith

held_child-on_child :
    (b : Bool) (u : Holding → Holding) (f : List Text) (r : SubNode → SubNode) (k s : Text)
    (c : Children)
    → ((m : SubNode) → held f (r m) ≡ (if b then u (held f m) else held f m))
    → held_child s f (on_child r k c)
      ≡ (if str_eq k s && b then u (held_child s f c) else held_child s f c)
unfolding held on_child
held_child-on_child b u f r k s nil h = ground (arith, h fresh_node, held-fresh f)
held_child-on_child b u f r k s (child j n c) h = ground (
  arith,
  h n,
  held_child-on_child b u f r k s c h,
  str_eq_iff k s,
  str_eq_iff j k,
  str_eq_iff j s,
)

held_wild-on_wild :
    (b : Bool) (u : Holding → Holding) (f : List Text) (r : SubNode → SubNode) (w : Wild)
    → ((m : SubNode) → held f (r m) ≡ (if b then u (held f m) else held f m))
    → held_wild f (on_wild r w) ≡ (if b then u (held_wild f w) else held_wild f w)
unfolding held
held_wild-on_wild b u f r absent h = h fresh_node ∙ ground (arith, held-fresh f)
held_wild-on_wild b u f r (present n) h = h n

held-here :
    (g : List Text) (u : Holding → Holding) (h : Holding) (c : Children) (p w : Wild)
    → held g (at_deepest [] u (node h c p w))
      ≡ (if same_filter [] g then u (held g (node h c p w)) else held g (node h c p w))
unfolding held at_deepest same_filter
held-here [] u h c p w = refl
held-here (t ∷ g) u h c p w = refl

-- One level of the walk, `r` being the walk below it.
step : Text → (SubNode → SubNode) → SubNode → SubNode
step s r (node h c p w) =
    if str_eq s pound
    then node h c p (on_wild r w)
    else if str_eq s plus
    then node h c (on_wild r p) w
    else node h (on_child r s c) p w

at_deepest-cons :
    (s : Text) (f : List Text) (u : Holding → Holding) (n : SubNode)
    → at_deepest (s ∷ f) u n ≡ step s (at_deepest f u) n
unfolding at_deepest step
at_deepest-cons s f u (node h c p w) = refl

-- What is held one level down, in the three kinds of child.
held_step : Text → List Text → SubNode → Holding
held_step t g (node h c p w) =
    if str_eq t pound
    then held_wild g w
    else if str_eq t plus
    then held_wild g p
    else held_child t g c

held-cons : (t : Text) (g : List Text) (n : SubNode) → held (t ∷ g) n ≡ held_step t g n
unfolding held held_step
held-cons t g (node h c p w) = refl

held_step-step :
    (b : Bool) (u : Holding → Holding) (s t : Text) (g : List Text) (r : SubNode → SubNode)
    (n : SubNode)
    → ((m : SubNode) → held g (r m) ≡ (if b then u (held g m) else held g m))
    → held_step t g (step s r n)
      ≡ (if str_eq s t && b then u (held_step t g n) else held_step t g n)
unfolding held_step step
held_step-step b u s t g r (node h c p w) ih =
    let e₁ = held_child-on_child b u g r s t c ih in
    let e₂ = held_wild-on_wild b u g r p ih in
    let e₃ = held_wild-on_wild b u g r w ih in
    ground (
      arith,
      e₁,
      e₂,
      e₃,
      str_eq_iff s t,
      str_eq_iff s pound,
      str_eq_iff s plus,
      str_eq_iff t pound,
      str_eq_iff t plus,
    )

held-nil : (s : Text) (r : SubNode → SubNode) (n : SubNode) → held [] (step s r n) ≡ held [] n
unfolding held step
held-nil s r (node h c p w) = ground arith

-- Subscribing through `getDeepestNode` changes what is held under exactly its filter.
pub held-at_deepest :
    (f g : List Text) (u : Holding → Holding) (n : SubNode)
    → held g (at_deepest f u n) ≡ (if same_filter f g then u (held g n) else held g n)
unfolding same_filter
held-at_deepest [] g u (node h c p w) = held-here g u h c p w
held-at_deepest (s ∷ f) [] u n =
    ap (held []) (at_deepest-cons s f u n) ∙ held-nil s (at_deepest f u) n
held-at_deepest (s ∷ f) (t ∷ g) u n =
    ap (held (t ∷ g)) (at_deepest-cons s f u n)
    ∙ held-cons t g (step s (at_deepest f u) n)
    ∙ held_step-step (same_filter f g) u s t g (at_deepest f u) n (held-at_deepest f g u)
    ∙ ap (λ x. if str_eq s t && same_filter f g then u x else x) (sym (held-cons t g n))

-- The tree that is for a filter, and the subscription of a client under it.
abbrev pub tree_of : List Text → Store → SubNode
tree_of f s = if is_dollar f then s.root_dollar else s.root

abbrev pub find_subscription : Text → List Text → Store → Option Subscription
find_subscription client_id f s = lookup client_id (held f (tree_of f s)).subscribers
