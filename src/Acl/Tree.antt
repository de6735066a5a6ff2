-- ===== src/Acl/Tree.antt =====
-- acltree.cpp: the tree of permissions against the rules that were put into it.
use flash_mq.Base.{
  ◌≡◌, refl, sym, ap, ◌∙◌, Bool, true, false, not, ◌&&◌, ◌||◌, inl, inr, List, [], ◌∷◌, ◌++◌,
  Option, none, some, any, any-append, if◌then◌else◌, arith, Bool-cases,
}
use flash_mq.Base.Text.{Text, str_eq, str_eq_iff, eq_of_str_eq}
use flash_mq.Topic.{plus, pound}
use flash_mq.Acl.{
  AclGrant, AclNode, node, Children, nil, child, Plus, no_plus, with_plus, fresh, user_wildcard,
  clientid_wildcard, find_child, has_child, update_child, or_fresh, get_children, add_path,
  on_child, on_plus, at_level, at_end, find_permission_recursive,
}

-- A level of a pattern against a level of a topic. In the tree of the patterns (`register`), `%u`
-- and `%c` also stand for the name and the id of the client.
unfoldable pub level_matches : Bool → Text → Text → Text → Text → Bool
level_matches register username clientid p t =
    str_eq p t
    || (register && (str_eq p user_wildcard && str_eq t username))
    || (register && (str_eq p clientid_wildcard && str_eq t clientid))

-- A pattern against a topic: `+` stands for any one level, and `#` for any rest, also the empty one.
unfoldable pub matches : Bool → Text → Text → List Text → List Text → Bool
unfolding level_matches
matches register username clientid [] [] = true
matches register username clientid [] (t ∷ ts) = false
matches register username clientid (p ∷ ps) [] = not (str_eq p plus) && str_eq p pound
matches register username clientid (p ∷ ps) (t ∷ ts) =
    let rest = matches register username clientid ps ts in
    if str_eq p plus
    then rest
    else if str_eq p pound
    then true
    else level_matches register username clientid p t && rest

-- The flags of a node tell which wildcards have a child, in the tree of the patterns only.
abbrev mutual
  pub WfNode : Bool → AclNode → Type 0
  WfNode r (node c p gs gp u i e) =
      (u ≡ r && has_child user_wildcard c)
      × (i ≡ r && has_child clientid_wildcard c)
      × WfChildren r c
      × WfPlus r p

  pub WfChildren : Bool → Children → Type 0
  WfChildren r nil = Unit {0}
  WfChildren r (child k n c) = WfNode r n × WfChildren r c

  pub WfPlus : Bool → Plus → Type 0
  WfPlus r no_plus = Unit {0}
  WfPlus r (with_plus n) = WfNode r n

pub fresh-Wf : (r : Bool) → WfNode r fresh
unfolding has_child
fresh-Wf true = (refl, refl, tt, tt)
fresh-Wf false = (refl, refl, tt, tt)

has_child-update_child :
    (k j : Text) (f : AclNode → AclNode) (c : Children)
    → has_child j (update_child k f c) ≡ str_eq k j || has_child j c
unfolding has_child update_child
has_child-update_child k j f nil = ground arith
has_child-update_child k j f (child l n c) =
    ground (arith, has_child-update_child k j f c, str_eq_iff k j, str_eq_iff l k, str_eq_iff l j)

-- The child under `k`, or a new node.
abbrev child_or_fresh : Option AclNode → AclNode
child_or_fresh none = fresh
child_or_fresh (some n) = n

find_child-update_child :
    (k j : Text) (f : AclNode → AclNode) (c : Children)
    → find_child j (update_child k f c)
      ≡ (if str_eq k j then some (f (child_or_fresh (find_child k c))) else find_child j c)
unfolding find_child update_child
find_child-update_child k j f nil = refl
find_child-update_child k j f (child l n c) =
    ground (arith, find_child-update_child k j f c, str_eq_iff k j, str_eq_iff l k, str_eq_iff l j)

find_child-Wf :
    (r : Bool) (k : Text) (c : Children)
    → WfChildren r c
    → WfNode r (child_or_fresh (find_child k c))
unfolding find_child
find_child-Wf r k nil w = fresh-Wf r
find_child-Wf r k (child j n c) w = elim (Bool-cases (str_eq j k)) [
  | inl e ↦ rw e w.0
  | inr ne ↦ rw ne (find_child-Wf r k c w.1)
]

update_child-Wf :
    (r : Bool) (k : Text) (f : AclNode → AclNode) (c : Children)
    → ((n : AclNode) → WfNode r n → WfNode r (f n))
    → WfChildren r c
    → WfChildren r (update_child k f c)
unfolding update_child
update_child-Wf r k f nil h w = (h fresh (fresh-Wf r), tt)
update_child-Wf r k f (child j n c) h w = elim (Bool-cases (str_eq j k)) [
  | inl e ↦ rw e (h n w.0, w.1)
  | inr ne ↦ rw ne (w.0, update_child-Wf r k f c h w.1)
]

or_fresh-Wf : (r : Bool) (p : Plus) → WfPlus r p → WfNode r (or_fresh p)
unfolding or_fresh
or_fresh-Wf r no_plus w = fresh-Wf r
or_fresh-Wf r (with_plus n) w = w

-- A flag that is set when its child is made.
flag_lem :
    (r hk had u key : Bool)
    → (key ≡ true → hk ≡ had)
    → u ≡ r && had
    → (if not hk && r && key then true else u) ≡ r && (key || had)
flag_lem r hk had u true same h = ground (arith, same refl)
flag_lem r hk had u false same h = ground arith

-- The flag of the wildcard `key` after a child was made under `k`.
flag_of :
    (k key : Text) (r u : Bool) (f : AclNode → AclNode) (c : Children)
    → u ≡ r && has_child key c
    → (if not (has_child k c) && r && str_eq k key then true else u)
      ≡ r && has_child key (update_child k f c)
flag_of k key r u f c h =
    flag_lem r (has_child k c) (has_child key c) u (str_eq k key)
      (λ e. ap (λ j. has_child j c) (eq_of_str_eq k key e)) h
    ∙ ap (λ b. r && b) (sym (has_child-update_child k key f c))

get_children-Wf :
    (k : Text) (r : Bool) (f : AclNode → AclNode) (n : AclNode)
    → ((m : AclNode) → WfNode r m → WfNode r (f m))
    → WfNode r n
    → WfNode r (get_children k r f n)
unfolding get_children
get_children-Wf k r f (node c p gs gp u i e) h w = (
  flag_of k user_wildcard r u f c w.0,
  flag_of k clientid_wildcard r i f c w.1,
  update_child-Wf r k f c h w.2,
  w.3,
)

pub add_path-Wf :
    (ps : List Text) (r : Bool) (g : AclGrant) (n : AclNode)
    → WfNode r n
    → WfNode r (add_path ps r g n)
unfolding add_path
add_path-Wf [] r g (node c p gs gp u i e) w = w
add_path-Wf (s ∷ ps) r g (node c p gs gp u i e) w = elim (Bool-cases (str_eq s plus)) [
  | inl is_plus ↦ rw is_plus (w.0, w.1, w.2, add_path-Wf ps r g (or_fresh p) (or_fresh-Wf r p w.3))
  | inr no_plus' ↦ elim (Bool-cases (str_eq s pound)) [
    | inl is_pound ↦ rw (no_plus', is_pound) w
    | inr plain ↦
        rw (no_plus', plain)
          (get_children-Wf s r (add_path ps r g) (node c p gs gp u i e) (add_path-Wf ps r g) w)
  ]
]

-- Whether a search has found a grant with a property.
module _ (q : AclGrant → Bool) (username clientid : Text) where
  unfoldable pub finds : List Text → AclNode → Bool
  finds ts n = any q (find_permission_recursive username clientid ts n)

  abbrev below : List Text → Option AclNode → Bool
  below ts none = false
  below ts (some n) = finds ts n

  abbrev below_plus : List Text → Plus → Bool
  below_plus ts no_plus = false
  below_plus ts (with_plus n) = finds ts n

  pub finds-fresh : (ts : List Text) → finds ts fresh ≡ false
  unfolding finds find_permission_recursive find_child
  finds-fresh [] = refl
  finds-fresh (t ∷ ts) = ground arith

  any-on_child :
      (ts : List Text) (o : Option AclNode)
      → any q (on_child (find_permission_recursive username clientid ts) o) ≡ below ts o
  unfolding finds
  any-on_child ts none = refl
  any-on_child ts (some n) = refl

  any-on_plus :
      (ts : List Text) (p : Plus)
      → any q (on_plus (find_permission_recursive username clientid ts) p) ≡ below_plus ts p
  unfolding finds
  any-on_plus ts no_plus = refl
  any-on_plus ts (with_plus n) = refl

  below-has_child :
      (k : Text) (c : Children) (ts : List Text)
      → has_child k c ≡ false
      → below ts (find_child k c) ≡ false
  unfolding has_child find_child
  below-has_child k nil ts h = refl
  below-has_child k (child j n c) ts h = ground (arith, below-has_child k c ts)

  -- The branch of a wildcard: its flag can be read as that of the tree.
  wildcard :
      (k t name : Text) (r u : Bool) (c : Children) (ts : List Text)
      → u ≡ r && has_child k c
      → any q (
          if u && str_eq t name
          then on_child (find_permission_recursive username clientid ts) (find_child k c)
          else [])
        ≡ (r && str_eq t name) && below ts (find_child k c)
  wildcard k t name r u c ts h =
      ground (arith, any-on_child ts (find_child k c), below-has_child k c ts)

  any-append_five :
      (a b c d e : List AclGrant)
      → any q (a ++ (b ++ (c ++ (d ++ e))))
        ≡ any q a || (any q b || (any q c || (any q d || any q e)))
  any-append_five a b c d e = simp any-append

  finds-cons :
      (t : Text) (ts : List Text) (n : AclNode)
      → finds (t ∷ ts) n
        ≡ any q (at_level username clientid t (find_permission_recursive username clientid ts) n)
  unfolding finds find_permission_recursive
  finds-cons t ts n = refl

  -- What is found through one node.
  finds-level :
      (r : Bool) (t : Text) (ts : List Text) (c : Children) (p : Plus) (gs gp : List AclGrant)
      (u i e : Bool)
      → WfNode r (node c p gs gp u i e)
      → finds (t ∷ ts) (node c p gs gp u i e)
        ≡ any q gp
          || (below ts (find_child t c)
              || ((r && str_eq t username) && below ts (find_child user_wildcard c)
                  || ((r && str_eq t clientid) && below ts (find_child clientid_wildcard c)
                      || below_plus ts p)))
  unfolding at_level
  finds-level r t ts c p gs gp u i e w =
      let find = find_permission_recursive username clientid ts in
      finds-cons t ts (node c p gs gp u i e)
      ∙ any-append_five gp (on_child find (find_child t c))
          (if u && str_eq t username then on_child find (find_child user_wildcard c) else [])
          (if i && str_eq t clientid then on_child find (find_child clientid_wildcard c) else [])
          (on_plus find p)
      ∙ cc (
        any-on_child ts (find_child t c),
        wildcard user_wildcard t username r u c ts w.0,
        wildcard clientid_wildcard t clientid r i c ts w.1,
        any-on_plus ts p,
      )

  finds-nil : (n : AclNode) → finds [] n ≡ any q (at_end n)
  unfolding finds find_permission_recursive
  finds-nil n = refl

  below_plus-or_fresh : (ts : List Text) (p : Plus) → below_plus ts p ≡ finds ts (or_fresh p)
  unfolding or_fresh
  below_plus-or_fresh ts no_plus = sym (finds-fresh ts)
  below_plus-or_fresh ts (with_plus n) = refl

  below-child_or_fresh :
      (ts : List Text) (o : Option AclNode) → below ts o ≡ finds ts (child_or_fresh o)
  below-child_or_fresh ts none = sym (finds-fresh ts)
  below-child_or_fresh ts (some n) = refl

  -- A child that was made or changed by `f`, which adds `x` to what is found.
  below-update :
      (k j : Text) (f : AclNode → AclNode) (c : Children) (ts : List Text) (x : Bool)
      → (let n = child_or_fresh (find_child k c) in finds ts (f n) ≡ finds ts n || x)
      → below ts (find_child j (update_child k f c))
        ≡ below ts (find_child j c) || (str_eq k j && x)
  below-update k j f c ts x h =
      ap (below ts) (find_child-update_child k j f c)
      ∙ ground (
        arith,
        λ (e : str_eq k j ≡ true). ap (λ l. below ts (find_child l c)) (eq_of_str_eq k j e),
        below-child_or_fresh ts (find_child k c),
      )

  any-snoc : (gs : List AclGrant) (g : AclGrant) → any q (gs ++ g ∷ []) ≡ any q gs || q g
  any-snoc gs g = any-append q gs (g ∷ []) ∙ ground arith

  finds-get_children :
      (k t : Text) (ts : List Text) (r x : Bool) (f : AclNode → AclNode) (n : AclNode)
      → WfNode r n
      → ((m : AclNode) → WfNode r m → WfNode r (f m))
      → ((m : AclNode) → WfNode r m → finds ts (f m) ≡ finds ts m || x)
      → finds (t ∷ ts) (get_children k r f n)
        ≡ finds (t ∷ ts) n || (level_matches r username clientid k t && x)
  unfolding get_children level_matches
  finds-get_children k t ts r x f (node c p gs gp u i e) w keep adds =
      let (w₀, w₁, w₂, w₃) = get_children-Wf k r f (node c p gs gp u i e) keep w in
      let h = adds (child_or_fresh (find_child k c)) (find_child-Wf r k c w.2) in
      finds-level r t ts (update_child k f c) p gs gp _ _ e (w₀, w₁, w₂, w₃)
      ∙ ground (
        arith,
        finds-level r t ts c p gs gp u i e w,
        below-update k t f c ts x h,
        below-update k user_wildcard f c ts x h,
        below-update k clientid_wildcard f c ts x h,
      )

  -- A rule with the levels `ps` and the grant `g` adds `g` to the grants found for the topics that
  -- match it, and changes nothing for the others.
  pub finds-add_path :
      (ps ts : List Text) (r : Bool) (g : AclGrant) (n : AclNode)
      → WfNode r n
      → finds ts (add_path ps r g n) ≡ finds ts n || (q g && matches r username clientid ps ts)
  unfolding matches add_path
  finds-add_path [] [] r g (node c p gs gp u i e) w =
      finds-nil (node c p (gs ++ g ∷ []) gp u i false)
      ∙ ground (
        arith,
        finds-nil (node c p gs gp u i e),
        any-append q (gs ++ g ∷ []) gp,
        any-append q gs gp,
        any-snoc gs g,
      )
  finds-add_path [] (t ∷ ts) r g (node c p gs gp u i e) w =
      finds-level r t ts c p (gs ++ g ∷ []) gp u i false w
      ∙ ground (arith, finds-level r t ts c p gs gp u i e w)
  finds-add_path (s ∷ ps) [] r g (node c p gs gp u i e) w = elim (Bool-cases (str_eq s plus)) [
    | inl is_plus ↦ rw is_plus (
        ground (
          arith,
          finds-nil (node c (with_plus (add_path ps r g (or_fresh p))) gs gp u i e),
          finds-nil (node c p gs gp u i e),
        ))
    | inr single ↦ elim (Bool-cases (str_eq s pound)) [
      | inl is_pound ↦
          rw (single, is_pound)
            (finds-nil (node c p gs (gp ++ g ∷ []) u i false)
              ∙ ground (
                arith,
                finds-nil (node c p gs gp u i e),
                any-append q gs (gp ++ g ∷ []),
                any-append q gs gp,
                any-snoc gp g,
              ))
      | inr plain ↦
          rw (single, plain)
            (finds-nil (get_children s r (add_path ps r g) (node c p gs gp u i e))
              ∙ ground (arith, finds-nil (node c p gs gp u i e)))
    ]
  ]
  finds-add_path (s ∷ ps) (t ∷ ts) r g (node c p gs gp u i e) w =
      let n = node c p gs gp u i e in
      elim (Bool-cases (str_eq s plus)) [
        | inl is_plus ↦ rw is_plus (
            finds-level r t ts c (with_plus (add_path ps r g (or_fresh p))) gs gp u i e
              (w.0, w.1, w.2, add_path-Wf ps r g (or_fresh p) (or_fresh-Wf r p w.3))
            ∙ ground (
              arith,
              finds-level r t ts c p gs gp u i e w,
              finds-add_path ps ts r g (or_fresh p) (or_fresh-Wf r p w.3),
              below_plus-or_fresh ts p,
            ))
        | inr single ↦ elim (Bool-cases (str_eq s pound)) [
          | inl is_pound ↦
              rw (single, is_pound)
                (finds-level r t ts c p gs (gp ++ g ∷ []) u i false w
                  ∙ ground (arith, finds-level r t ts c p gs gp u i e w, any-snoc gp g))
          | inr plain ↦
              rw (single, plain)
                (finds-get_children s t ts r (q g && matches r username clientid ps ts)
                    (add_path ps r g) n w (add_path-Wf ps r g) (λ m v. finds-add_path ps ts r g m v)
                  ∙ ground arith)
        ]
      ]
