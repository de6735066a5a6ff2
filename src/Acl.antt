-- ===== src/Acl.antt =====
-- acltree.cpp: permissions on topics, as loaded from a Mosquitto-compatible ACL file.
pub mod Tree
pub mod Decision
use flash_mq.Base.{
  ◌+◌, map, leb, ℕ, Bool, true, false, not, ◌&&◌, ◌||◌, List, [], ◌∷◌, ◌++◌, Option, none, some,
  any, is_nil, if◌then◌else◌,
}
use flash_mq.Base.Text.{Text, str_eq, codes}
use flash_mq.Base.Dict.{lookup, insert}
use flash_mq.Base.Result.{Result, ok, err, ◌>>=◌}
use flash_mq.Topic.{Error, plus, pound, split_topic}

pub data AclGrant : Type 0 where
  deny read write read_write : AclGrant

pub data AclTopicType : Type 0 where
  strings patterns : AclTopicType

-- The results of `findPermission`; `AuthResult` has others.
pub data AuthResult : Type 0 where
  success acl_denied : AuthResult

-- `AclNode`: `children`, `childrenPlus`, `grants`, `grantsPound`, `_hasUserWildcard`,
-- `_hasClientidWildcard` and `empty`.
mutual
  pub data AclNode : Type 0 where
    node : Children → Plus → List AclGrant → List AclGrant → Bool → Bool → Bool → AclNode

  pub data Children : Type 0 where
    nil : Children
    child : Text → AclNode → Children → Children

  pub data Plus : Type 0 where
    no_plus : Plus
    with_plus : AclNode → Plus

-- `empty` is initialised to `false`.
abbrev pub fresh : AclNode
fresh = node nil no_plus [] [] false false false

abbrev pub user_wildcard : Text
user_wildcard = codes "%u"

abbrev pub clientid_wildcard : Text
clientid_wildcard = codes "%c"

unfoldable pub find_child : Text → Children → Option AclNode
find_child k nil = none
find_child k (child j n c) = if str_eq j k then some n else find_child k c

unfoldable pub has_child : Text → Children → Bool
has_child k nil = false
has_child k (child j n c) = if str_eq j k then true else has_child k c

-- The child under a key replaced by what `f` makes of it, or of a new node if it was not there.
unfoldable pub update_child : Text → (AclNode → AclNode) → Children → Children
update_child k f nil = child k (f fresh) nil
update_child k f (child j n c) =
    if str_eq j k then child j (f n) c else child j n (update_child k f c)

unfoldable pub or_fresh : Plus → AclNode
or_fresh no_plus = fresh
or_fresh (with_plus n) = n

unfoldable pub add_grant : AclGrant → AclNode → AclNode
add_grant g (node c p gs gp u i e) = node c p (gs ++ g ∷ []) gp u i false

unfoldable pub add_grant_pound : AclGrant → AclNode → AclNode
add_grant_pound g (node c p gs gp u i e) = node c p gs (gp ++ g ∷ []) u i false

-- `getChildrenPlus()`, and `f` on what it returns.
unfoldable pub get_children_plus : (AclNode → AclNode) → AclNode → AclNode
unfolding or_fresh
get_children_plus f (node c p gs gp u i e) = node c (with_plus (f (or_fresh p))) gs gp u i e

-- `getChildren(subtopic, registerPattern)`, and `f` on what it returns.
unfoldable pub get_children : Text → Bool → (AclNode → AclNode) → AclNode → AclNode
unfolding has_child update_child
get_children k register f (node c p gs gp u i e) =
    let made = not (has_child k c) && register in
    node (update_child k f c) p gs gp (if made && str_eq k user_wildcard then true else u)
      (if made && str_eq k clientid_wildcard then true else i) e

-- The loop of `addTopic`, with `curEnd` the node.
unfoldable pub add_path : List Text → Bool → AclGrant → AclNode → AclNode
unfolding add_grant add_grant_pound get_children_plus get_children
add_path [] register g n = add_grant g n
add_path (subtop ∷ subtopics) register g n =
    let rest = add_path subtopics register g in
    if str_eq subtop plus
    then get_children_plus rest n
    else if str_eq subtop pound
    then add_grant_pound g n
    else get_children subtop register rest n

-- `isEmpty()`
abbrev pub is_empty : AclNode → Bool
is_empty (node c p gs gp u i e) = e

-- The calls below one node: `f` on a child that is there.
abbrev pub on_child : (AclNode → List AclGrant) → Option AclNode → List AclGrant
on_child f none = []
on_child f (some n) = f n

abbrev pub on_plus : (AclNode → List AclGrant) → Plus → List AclGrant
on_plus f no_plus = []
on_plus f (with_plus n) = f n

-- What one node adds to the permissions for a topic that goes on with `t`; `f` is the search for
-- the rest of it.
unfoldable pub at_level : Text → Text → Text → (AclNode → List AclGrant) → AclNode → List AclGrant
unfolding find_child
at_level username clientid t f (node c p gs gp u i e) =
    gp
    ++ (on_child f (find_child t c)
        ++ ((if u && str_eq t username then on_child f (find_child user_wildcard c) else [])
            ++ ((if i && str_eq t clientid then on_child f (find_child clientid_wildcard c) else [])
                ++ on_plus f p)))

abbrev pub at_end : AclNode → List AclGrant
at_end (node c p gs gp u i e) = gs ++ gp

-- What `findPermissionRecursive` appends to `collectedPermissions`.
unfoldable pub find_permission_recursive : Text → Text → List Text → AclNode → List AclGrant
unfolding at_level
find_permission_recursive username clientid [] n = at_end n
find_permission_recursive username clientid (t ∷ ts) n =
    at_level username clientid t (find_permission_recursive username clientid ts) n

pub record AclTree : Type 0 where
  pub root_anonymous : AclNode
  pub root_per_user : List (Text × AclNode)
  pub root_patterns : AclNode

unfoldable pub empty_tree : AclTree
empty_tree = record { root_anonymous = fresh; root_per_user = []; root_patterns = fresh }

abbrev pub or_new : Option AclNode → AclNode
or_new none = fresh
or_new (some n) = n

-- `addTopic` behind its call of `splitTopic`.
unfoldable pub add_subtopics : List Text → AclGrant → AclTopicType → Text → AclTree → AclTree
unfolding lookup insert
add_subtopics subtopics g patterns username t = record t {
  root_patterns = add_path subtopics true g t.root_patterns;
}
add_subtopics subtopics g strings [] t = record t {
  root_anonymous = add_path subtopics false g t.root_anonymous;
}
add_subtopics subtopics g strings (c ∷ s) t = record t {
  root_per_user =
      insert (c ∷ s) (add_path subtopics false g (or_new (lookup (c ∷ s) t.root_per_user)))
        t.root_per_user;
}

pub add_topic : ℕ → Text → AclGrant → AclTopicType → Text → AclTree → Result Error AclTree
unfolding add_subtopics
add_topic limit pattern_text g type username t = do
  subtopics ← split_topic limit pattern_text
  ok (add_subtopics subtopics g type username t)

abbrev pub is_deny : AclGrant → Bool
is_deny deny = true
is_deny _ = false

-- The grants that allow an access, which is `read` or `write`.
abbrev pub allows : AclGrant → AclGrant → Bool
allows read read = true
allows read read_write = true
allows read _ = false
allows write write = true
allows write read_write = true
allows write _ = false
allows _ _ = false

-- The last loop of `findPermission`.
pub allowed_loop : AclGrant → Bool → List AclGrant → AuthResult
allowed_loop access allowed [] = if allowed then success else acl_denied
allowed_loop access allowed (g ∷ gs) =
    let rest = allowed_loop access (if allows access g then true else allowed) gs in
    if is_deny g then acl_denied else rest

-- The node of a client that is in `rootPerUser`; it is searched unless it is empty.
abbrev pub unless_empty : (AclNode → List AclGrant) → AclNode → List AclGrant
unless_empty f n = if not (is_empty n) then f n else []

-- What is collected for the client by its name, before the patterns.
pub collect_user : Text → Text → List Text → AclTree → List AclGrant
unfolding lookup find_permission_recursive
collect_user [] clientid ts t =
    let find = find_permission_recursive [] clientid ts in
    if not (is_empty t.root_anonymous)
    then find t.root_anonymous
    else on_child (unless_empty find) (lookup [] t.root_per_user)
collect_user (c ∷ s) clientid ts t =
    on_child (unless_empty (find_permission_recursive (c ∷ s) clientid ts))
      (lookup (c ∷ s) t.root_per_user)

pub collect_patterns : Text → Text → List Text → AclTree → List AclGrant
unfolding find_permission_recursive
collect_patterns username clientid ts t =
    unless_empty (find_permission_recursive username clientid ts) t.root_patterns

unfoldable pub find_permission : List Text → AclGrant → Text → Text → AclTree → AuthResult
unfolding collect_user collect_patterns allowed_loop
find_permission ts access username clientid t =
    let by_user = collect_user username clientid ts t in
    let collected = by_user ++ collect_patterns username clientid ts t in
    if any is_deny by_user
    then acl_denied
    else if is_nil collected
    then acl_denied
    else allowed_loop access false collected

-- `str_tolower`, for bytes of the C locale.
abbrev pub to_lower : ℕ → ℕ
to_lower c = if leb b'A' c && leb c b'Z' then c + 32 else c

-- `stringToAclGrant`; `none` is the exception.
pub string_to_acl_grant : Text → Option AclGrant
string_to_acl_grant s =
    let s2 = map to_lower s in
    if str_eq s2 (codes "read")
    then some read
    else if str_eq s2 (codes "write")
    then some write
    else if str_eq s2 (codes "readwrite")
    then some read_write
    else if str_eq s2 (codes "deny")
    then some deny
    else none
