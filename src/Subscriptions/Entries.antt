-- ===== src/Subscriptions/Entries.antt =====
-- subscriptionstore.cpp: the filters that have a node in the tree, and sums over what is held there.
use flash_mq.Base.{
  ℕ, ◌+◌, ◌≡◌, refl, ap, ◌∙◌, Bool, true, false, ◌&&◌, ◌||◌, List, [], ◌∷◌, ◌++◌, is_nil,
  if◌then◌else◌, arith,
}
use flash_mq.Base.Text.{Text, str_eq, str_eq_refl}
use flash_mq.Topic.{plus, pound}
use flash_mq.Subscriptions.{
  Holding, SubNode, node, Children, nil, child, Wild, absent, present, ReceivingSubscriber,
}

-- A filter against a topic: `+` stands for any one level, and a last `#` for any rest, also the
-- empty one.
unfoldable pub filter_matches : List Text → List Text → Bool
filter_matches [] [] = true
filter_matches [] (t ∷ ts) = false
filter_matches (s ∷ f) [] = str_eq s pound && is_nil f
filter_matches (s ∷ f) (t ∷ ts) =
    let rest = filter_matches f ts in
    if str_eq s pound then is_nil f else if str_eq s plus then rest else str_eq s t && rest

abbrev pub Entries : Type 0
Entries = List (List Text × Holding)

abbrev pub under : Text → Entries → Entries
under k [] = []
under k ((f, h) ∷ l) = (k ∷ f, h) ∷ under k l

-- Every filter that has a node, with what is held under it.
unfoldable mutual
  pub entries : SubNode → Entries
  entries (node h c p g) =
      ([], h)
      ∷ (entries_children c ++ (under plus (entries_wild p) ++ under pound (entries_wild g)))

  pub entries_children : Children → Entries
  entries_children nil = []
  entries_children (child k n c) = under k (entries n) ++ entries_children c

  pub entries_wild : Wild → Entries
  entries_wild absent = []
  entries_wild (present n) = entries n

unfoldable pub has_key : Text → Children → Bool
has_key k nil = false
has_key k (child j n c) = str_eq j k || has_key k c

-- The children of a node have names of their own, which are no wildcards.
abbrev mutual
  pub KeysValid : SubNode → Type 0
  KeysValid (node h c p g) = ChildrenValid c × WildValid p × WildValid g

  pub ChildrenValid : Children → Type 0
  ChildrenValid nil = Unit {0}
  ChildrenValid (child k n c) =
      (str_eq k plus ≡ false)
      × (str_eq k pound ≡ false)
      × (has_key k c ≡ false)
      × KeysValid n
      × ChildrenValid c

  pub WildValid : Wild → Type 0
  WildValid absent = Unit {0}
  WildValid (present n) = KeysValid n

unfoldable pub count_where : (ReceivingSubscriber → Bool) → List ReceivingSubscriber → ℕ
count_where q [] = 0
count_where q (r ∷ l) = (if q r then 1 else 0) + count_where q l

pub count_where-append :
    (q : ReceivingSubscriber → Bool) (k l : List ReceivingSubscriber)
    → count_where q (k ++ l) ≡ count_where q k + count_where q l
unfolding count_where
count_where-append q [] l = omega arith
count_where-append q (r ∷ k) l = omega (arith, count_where-append q k l)

module _ (w : Holding → ℕ) where
  -- The sum over the entries whose filter is in a set.
  unfoldable pub total : (List Text → Bool) → Entries → ℕ
  total m [] = 0
  total m ((f, h) ∷ l) = (if m f then w h else 0) + total m l

  pub total-append :
      (m : List Text → Bool) (k l : Entries) → total m (k ++ l) ≡ total m k + total m l
  unfolding total
  total-append m [] l = omega arith
  total-append m ((f, h) ∷ k) l = omega (arith, total-append m k l)

  pub total-under :
      (m : List Text → Bool) (k : Text) (l : Entries)
      → total m (under k l) ≡ total (λ f. m (k ∷ f)) l
  unfolding total
  total-under m k [] = refl
  total-under m k ((f, h) ∷ l) = omega (arith, total-under m k l)

  pub total-same :
      (m m' : List Text → Bool) (l : Entries)
      → ((f : List Text) → m f ≡ m' f)
      → total m l ≡ total m' l
  unfolding total
  total-same m m' [] e = refl
  total-same m m' ((f, h) ∷ l) e = rw (e f) (omega (arith, total-same m m' l e))

  pub total-none :
      (m : List Text → Bool) (l : Entries) → ((f : List Text) → m f ≡ false) → total m l ≡ 0
  unfolding total
  total-none m [] e = refl
  total-none m ((f, h) ∷ l) e = rw (e f) (omega (arith, total-none m l e))

  pub total-entries :
      (m : List Text → Bool) (h : Holding) (c : Children) (p g : Wild)
      → total m (entries (node h c p g))
        ≡ (if m [] then w h else 0)
          + (total m (entries_children c)
              + (total (λ f. m (plus ∷ f)) (entries_wild p)
                  + total (λ f. m (pound ∷ f)) (entries_wild g)))
  unfolding total entries
  total-entries m h c p g = omega (
    arith,
    total-append m (entries_children c)
        (under plus (entries_wild p) ++ under pound (entries_wild g)),
    total-append m (under plus (entries_wild p)) (under pound (entries_wild g)),
    total-under m plus (entries_wild p),
    total-under m pound (entries_wild g),
  )

  pub total-child :
      (m : List Text → Bool) (k : Text) (n : SubNode) (c : Children)
      → total m (entries_children (child k n c))
        ≡ total (λ f. m (k ∷ f)) (entries n) + total m (entries_children c)
  unfolding entries
  total-child m k n c = omega (
    arith,
    total-append m (under k (entries n)) (entries_children c),
    total-under m k (entries n),
  )

  -- Children add nothing where no filter is wanted that begins with their names.
  pub total-no_child :
      (m : List Text → Bool) (c : Children)
      → ((k : Text) → has_key k c ≡ true → (f : List Text) → m (k ∷ f) ≡ false)
      → total m (entries_children c) ≡ 0
  unfolding total entries has_key
  total-no_child m nil e = refl
  total-no_child m (child k n c) e = omega (
    arith,
    total-child m k n c,
    total-none (λ f. m (k ∷ f)) (entries n) (e k (ground (arith, str_eq_refl k))),
    total-no_child m c (λ j h. e j (ground (arith, h))),
  )

  -- Only the node itself has the empty filter.
  pub total-is_nil :
      (n : SubNode) (h : Holding) (c : Children) (p g : Wild)
      → n ≡ node h c p g
      → total is_nil (entries n) ≡ w h
  total-is_nil n h c p g e =
      ap (λ n. total is_nil (entries n)) e
      ∙ omega (
        arith,
        total-entries is_nil h c p g,
        total-no_child is_nil c (λ k l f. refl),
        total-none (λ f. false) (entries_wild p) (λ f. refl),
        total-none (λ f. false) (entries_wild g) (λ f. refl),
      )
