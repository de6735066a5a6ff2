-- ===== src/Tests/Acls.antt =====
-- Permissions on topics.
use flash_mq.Base.{◌≡◌, refl, true, ◌&&◌, ◌||◌, List, [], ◌∷◌}
use flash_mq.Base.Text.{Text, codes, str_eq}
use flash_mq.Acl.{
  add_subtopics, empty_tree, deny, read, write, strings, patterns, acl_denied, success, fresh,
  add_path, find_permission, is_deny,
}
use flash_mq.Acl.Tree.{fresh-Wf, finds, matches, finds-add_path}
use flash_mq.Acl.Decision.{Rule, build, decide, find_permission-decide}

abbrev sensors : List Text
sensors = codes "sensors" ∷ codes "%u" ∷ codes "#" ∷ []

abbrev sensors_of_eve : List Text
sensors_of_eve = codes "sensors" ∷ codes "eve" ∷ codes "temperature" ∷ []

finds-add_path_example :
    finds is_deny (codes "eve") (codes "c1") sensors_of_eve (add_path sensors true deny fresh)
    ≡ finds is_deny (codes "eve") (codes "c1") sensors_of_eve fresh
      || (is_deny deny && matches true (codes "eve") (codes "c1") sensors sensors_of_eve)
finds-add_path_example =
    finds-add_path is_deny (codes "eve") (codes "c1") sensors sensors_of_eve true deny fresh
      (fresh-Wf true)

abbrev rules : List Rule
rules =
    record { subtopics = sensors; grant = read; type = patterns; username = [] }
    ∷ record { subtopics = codes "#" ∷ []; grant = write; type = strings; username = codes "eve" }
    ∷ []

find_permission-decide_example :
    find_permission sensors_of_eve read (codes "eve") (codes "c1") (build rules)
    ≡ decide rules read (codes "eve") (codes "c1") sensors_of_eve
find_permission-decide_example =
    find_permission-decide rules sensors_of_eve read (codes "eve") (codes "c1")

eve_may_read :
    find_permission sensors_of_eve read (codes "eve") (codes "c1") (build rules) ≡ success
unfolding find_permission build add_subtopics empty_tree str_eq add_path
eve_may_read = refl

mallory_may_not :
    find_permission sensors_of_eve write (codes "mallory") (codes "c1") (build rules) ≡ acl_denied
unfolding find_permission build add_subtopics empty_tree str_eq add_path
mallory_may_not = refl
