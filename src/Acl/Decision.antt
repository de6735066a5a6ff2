-- ===== src/Acl/Decision.antt =====
-- `findPermission` against the rules that were added: which client may read or write which topic.
use flash_mq.Base.{
  ◌≡◌, refl, sym, ap, subst, ◌∙◌, Bool, true, false, ◌&&◌, ◌||◌, inl, inr, List, [], ◌∷◌, ◌++◌,
  Option, none, some, any, any-append, if◌then◌else◌, arith, Bool-cases,
}
use flash_mq.Base.Dict.{lookup, lookup-insert}
use flash_mq.Base.Text.{Text, str_eq, eq_of_str_eq}
use flash_mq.Topic.{plus, pound}
use flash_mq.Acl.{
  AclGrant, AclTopicType, strings, patterns, AuthResult, success, acl_denied, AclNode, node, fresh,
  AclTree, empty_tree, add_path, add_subtopics, find_permission_recursive, find_permission,
  collect_user, collect_patterns, allowed_loop, is_deny, allows, on_child, unless_empty, is_empty,
  or_new,
}
use flash_mq.Acl.Tree.{WfNode, matches, finds, finds-fresh, finds-add_path, add_path-Wf, fresh-Wf}

-- One rule of the file: the levels of its topic, its grant, and whose it is.
pub record Rule : Type 0 where
  pub subtopics : List Text
  pub grant : AclGrant
  pub type : AclTopicType
  pub username : Text

-- The tree after the rules, the last of the list first.
unfoldable pub build : List Rule → AclTree
build [] = empty_tree
build (r ∷ rules) = add_subtopics r.subtopics r.grant r.type r.username (build rules)

-- A rule of a user speaks of the clients with exactly that user name, and a pattern of all clients.
abbrev pub applies_of : AclTopicType → Rule → Text → Text → List Text → Bool
applies_of patterns r username clientid ts = matches true username clientid r.subtopics ts
applies_of strings r username clientid ts =
    str_eq r.username username && matches false username clientid r.subtopics ts

abbrev pub applies : Text → Text → List Text → Rule → Bool
applies username clientid ts r = applies_of r.type r username clientid ts

-- A rule that denies beats all others; without one, a rule has to allow the access.
unfoldable pub decide : List Rule → AclGrant → Text → Text → List Text → AuthResult
decide rules access username clientid ts =
    if any (λ r. applies username clientid ts r && is_deny r.grant) rules
    then acl_denied
    else if any (λ r. applies username clientid ts r && allows access r.grant) rules
    then success
    else acl_denied

allowed_loop_lem :
    (access : AclGrant) (allowed : Bool) (gs : List AclGrant)
    → allowed_loop access allowed gs ≡ (
        if any is_deny gs
        then acl_denied
        else if allowed || any (allows access) gs
        then success
        else acl_denied)
unfolding allowed_loop
allowed_loop_lem access allowed [] = ground arith
allowed_loop_lem access allowed (g ∷ gs) =
    ground (arith, allowed_loop_lem access (if allows access g then true else allowed) gs)

-- The decision from all grants together.
pub find_permission-any :
    (ts : List Text) (access : AclGrant) (username clientid : Text) (t : AclTree)
    → (let found = collect_user username clientid ts t ++ collect_patterns username clientid ts t in
        find_permission ts access username clientid t ≡ (
          if any is_deny found
          then acl_denied
          else if any (allows access) found
          then success
          else acl_denied))
unfolding find_permission
find_permission-any ts access username clientid t =
    let a = collect_user username clientid ts t in
    let b = collect_patterns username clientid ts t in
    ground (arith, any-append is_deny a b, allowed_loop_lem access false (a ++ b))

-- The nodes of a tree keep their flags, and are never marked empty.
abbrev RootIsValid : Bool → AclNode → Type 0
RootIsValid r n = WfNode r n × (is_empty n ≡ false)

fresh-RootIsValid : (r : Bool) → RootIsValid r fresh
fresh-RootIsValid r = (fresh-Wf r, refl)

add_path-not_empty :
    (ps : List Text) (r : Bool) (g : AclGrant) (n : AclNode)
    → is_empty n ≡ false
    → is_empty (add_path ps r g n) ≡ false
unfolding add_path
add_path-not_empty [] r g (node c p gs gp u i e) h = refl
add_path-not_empty (s ∷ ps) r g (node c p gs gp u i e) h = elim (Bool-cases (str_eq s plus)) [
  | inl is_plus ↦ rw is_plus h
  | inr single ↦ elim (Bool-cases (str_eq s pound)) [
    | inl is_pound ↦ rw (single, is_pound) refl
    | inr plain ↦ rw (single, plain) h
  ]
]

add_path-RootIsValid :
    (ps : List Text) (r : Bool) (g : AclGrant) (n : AclNode)
    → RootIsValid r n
    → RootIsValid r (add_path ps r g n)
add_path-RootIsValid ps r g n h = (add_path-Wf ps r g n h.0, add_path-not_empty ps r g n h.1)

-- The node that holds the rules of a user.
abbrev user_root : Text → AclTree → AclNode
user_root [] t = t.root_anonymous
user_root (c ∷ s) t = or_new (lookup (c ∷ s) t.root_per_user)

abbrev TreeIsValid : AclTree → Type 0
TreeIsValid t =
    ((username : Text) → RootIsValid false (user_root username t))
    × RootIsValid true t.root_patterns

or_new-if :
    (b : Bool) (n : AclNode) (o : Option AclNode)
    → or_new (if b then some n else o) ≡ (if b then n else or_new o)
or_new-if true n o = refl
or_new-if false n o = refl

user_root-add_subtopics :
    (ps : List Text) (g : AclGrant) (name username : Text) (t : AclTree)
    → user_root username (add_subtopics ps g strings name t) ≡ (
        if str_eq name username
        then add_path ps false g (user_root username t)
        else user_root username t)
unfolding add_subtopics str_eq
user_root-add_subtopics ps g [] [] t = refl
user_root-add_subtopics ps g [] (d ∷ v) t = refl
user_root-add_subtopics ps g (c ∷ s) [] t = refl
user_root-add_subtopics ps g (c ∷ s) (d ∷ v) t =
    let k = c ∷ s in
    let j = d ∷ v in
    let n = add_path ps false g (or_new (lookup k t.root_per_user)) in
    ap or_new (lookup-insert k j n t.root_per_user)
    ∙ or_new-if (str_eq k j) n (lookup j t.root_per_user)
    ∙ elim (Bool-cases (str_eq k j)) [
      | inl e ↦ rw (e, eq_of_str_eq k j e) refl
      | inr ne ↦ rw ne refl
    ]

root_patterns-add_subtopics :
    (ps : List Text) (g : AclGrant) (name : Text) (t : AclTree)
    → (add_subtopics ps g strings name t).root_patterns ≡ t.root_patterns
unfolding add_subtopics
root_patterns-add_subtopics ps g [] t = refl
root_patterns-add_subtopics ps g (c ∷ s) t = refl

user_root-patterns :
    (ps : List Text) (g : AclGrant) (name username : Text) (t : AclTree)
    → user_root username (add_subtopics ps g patterns name t) ≡ user_root username t
unfolding add_subtopics
user_root-patterns ps g name [] t = refl
user_root-patterns ps g name (d ∷ v) t = refl

root_patterns-patterns :
    (ps : List Text) (g : AclGrant) (name : Text) (t : AclTree)
    → (add_subtopics ps g patterns name t).root_patterns ≡ add_path ps true g t.root_patterns
unfolding add_subtopics
root_patterns-patterns ps g name t = refl

if-RootIsValid :
    (b : Bool) (ps : List Text) (g : AclGrant) (n : AclNode)
    → RootIsValid false n
    → RootIsValid false (if b then add_path ps false g n else n)
if-RootIsValid true ps g n h = add_path-RootIsValid ps false g n h
if-RootIsValid false ps g n h = h

add_subtopics-IsValid :
    (ps : List Text) (g : AclGrant) (type : AclTopicType) (name : Text) (t : AclTree)
    → TreeIsValid t
    → TreeIsValid (add_subtopics ps g type name t)
add_subtopics-IsValid ps g strings name t h = (
  λ username.
      subst (RootIsValid false) (sym (user_root-add_subtopics ps g name username t))
        (if-RootIsValid (str_eq name username) ps g (user_root username t) (h.0 username)),
  subst (RootIsValid true) (sym (root_patterns-add_subtopics ps g name t)) h.1,
)
add_subtopics-IsValid ps g patterns name t h = (
  λ username.
      subst (RootIsValid false) (sym (user_root-patterns ps g name username t)) (h.0 username),
  subst (RootIsValid true) (sym (root_patterns-patterns ps g name t))
      (add_path-RootIsValid ps true g t.root_patterns h.1),
)

user_root-empty_tree : (username : Text) → user_root username empty_tree ≡ fresh
unfolding empty_tree lookup
user_root-empty_tree [] = refl
user_root-empty_tree (c ∷ s) = refl

root_patterns-empty_tree : empty_tree.root_patterns ≡ fresh
unfolding empty_tree
root_patterns-empty_tree = refl

build-IsValid : (rules : List Rule) → TreeIsValid (build rules)
unfolding build
build-IsValid [] = (
  λ username.
      subst (RootIsValid false) (sym (user_root-empty_tree username)) (fresh-RootIsValid false),
  subst (RootIsValid true) (sym root_patterns-empty_tree) (fresh-RootIsValid true),
)
build-IsValid (r ∷ rules) =
    add_subtopics-IsValid r.subtopics r.grant r.type r.username (build rules) (build-IsValid rules)

-- What is collected has a grant with a property when one of the two nodes that are searched has.
module _ (q : AclGrant → Bool) (username clientid : Text) (ts : List Text) where
  any-unless_empty :
      (r : Bool) (n : AclNode)
      → RootIsValid r n
      → any q (unless_empty (find_permission_recursive username clientid ts) n)
        ≡ finds q username clientid ts n
  unfolding finds
  any-unless_empty r n h = rw h.1 refl

  any-on_found :
      (o : Option AclNode)
      → RootIsValid false (or_new o)
      → any q (on_child (unless_empty (find_permission_recursive username clientid ts)) o)
        ≡ finds q username clientid ts (or_new o)
  any-on_found none h = sym (finds-fresh q username clientid ts)
  any-on_found (some n) h = any-unless_empty false n h

  abbrev found : AclTree → Bool
  found t =
      finds q username clientid ts (user_root username t)
      || finds q username clientid ts t.root_patterns

  abbrev rule_adds : Rule → Bool
  rule_adds r = q r.grant && applies username clientid ts r

  found-add_subtopics :
      (t : AclTree) (ps : List Text) (g : AclGrant) (type : AclTopicType) (name : Text)
      → TreeIsValid t
      → found (add_subtopics ps g type name t)
        ≡ found t || rule_adds (record { subtopics = ps; grant = g; type = type; username = name })
  found-add_subtopics t ps g strings name h =
      rw (user_root-add_subtopics ps g name username t, root_patterns-add_subtopics ps g name t)
        (elim (Bool-cases (str_eq name username)) [
          | inl e ↦ rw e (
              ground (
                arith,
                finds-add_path q username clientid ps ts false g (user_root username t)
                    (h.0 username).0,
              ))
          | inr ne ↦ rw ne (ground arith)
        ])
  found-add_subtopics t ps g patterns name h =
      rw (user_root-patterns ps g name username t, root_patterns-patterns ps g name t)
        (ground (arith, finds-add_path q username clientid ps ts true g t.root_patterns h.1.0))

  found-build :
      (rules : List Rule)
      → found (build rules) ≡ any (λ r. applies username clientid ts r && q r.grant) rules
  unfolding build
  found-build [] =
      rw (user_root-empty_tree username, root_patterns-empty_tree)
        (ground (arith, finds-fresh q username clientid ts))
  found-build (r ∷ rules) = ground (
    arith,
    found-build rules,
    found-add_subtopics (build rules) r.subtopics r.grant r.type r.username (build-IsValid rules),
  )

any-collect_user :
    (q : AclGrant → Bool) (username clientid : Text) (ts : List Text) (t : AclTree)
    → TreeIsValid t
    → any q (collect_user username clientid ts t)
      ≡ finds q username clientid ts (user_root username t)
unfolding collect_user finds
any-collect_user q [] clientid ts t h = rw (h.0 []).1 refl
any-collect_user q (c ∷ s) clientid ts t h =
    any-on_found q (c ∷ s) clientid ts (lookup (c ∷ s) t.root_per_user) (h.0 (c ∷ s))

any-collect :
    (q : AclGrant → Bool) (username clientid : Text) (ts : List Text) (t : AclTree)
    → TreeIsValid t
    → any q (collect_user username clientid ts t ++ collect_patterns username clientid ts t)
      ≡ found q username clientid ts t
unfolding collect_patterns
any-collect q username clientid ts t h =
    any-append q (collect_user username clientid ts t) (collect_patterns username clientid ts t)
    ∙ cc (
      any-collect_user q username clientid ts t h,
      any-unless_empty q username clientid ts true t.root_patterns h.1,
    )

-- For a tree into which any list of rules was put, `findPermission` denies the access when one of
-- the rules that apply denies, and otherwise permits it exactly when one of them allows the access.
-- The rules that apply are those of exactly the user's name and the patterns, when their levels
-- match those of the topic.
pub find_permission-decide :
    (rules : List Rule) (ts : List Text) (access : AclGrant) (username clientid : Text)
    → find_permission ts access username clientid (build rules)
      ≡ decide rules access username clientid ts
unfolding decide
find_permission-decide rules ts access username clientid =
    let both = λ (q : AclGrant → Bool).
      any-collect q username clientid ts (build rules) (build-IsValid rules)
      ∙ found-build q username clientid ts rules in
    find_permission-any ts access username clientid (build rules)
    ∙ cc (both is_deny, both (allows access))
