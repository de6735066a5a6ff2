-- ===== src/Topic/Split.antt =====
-- `splitTopic` against a recursive description of the levels of a text, and its inverse
-- `recompose_topic`.
use flash_mq.Base.{
  ℕ, zero, suc, ◌≤◌, ◌<◌, ◌≡◌, refl, ◌∙◌, ap, sym, Bool, true, false, List, [], ◌∷◌, ◌++◌, Option,
  none, some, length, ltb, ◌==◌, if◌then◌else◌, arith, append_assoc, Option-cases, inl, inr,
}
use flash_mq.Base.Text.{Text}
use flash_mq.Base.Result.{ok, err}
use flash_mq.Topic.{
  too_many_levels, slash, find_sep, split_loop, split_topic, recompose_loop, recompose_topic,
}

abbrev pub push_first : ℕ → List Text → List Text
push_first c [] = (c ∷ []) ∷ []
push_first c (l ∷ ls) = (c ∷ l) ∷ ls

-- The pieces of a text between its slashes; there is always one.
unfoldable pub levels : Text → List Text
levels [] = [] ∷ []
levels (c ∷ s) = let rest = levels s in if c == slash then [] ∷ rest else push_first c rest

-- The pieces with a slash between each two.
unfoldable pub join : List Text → Text
join [] = []
join (l ∷ []) = l
join (l ∷ m ∷ ls) = l ++ slash ∷ join (m ∷ ls)

unfoldable pub has_no_slash : Text → Bool
has_no_slash [] = true
has_no_slash (c ∷ s) = if c == slash then false else has_no_slash s

unfoldable pub have_no_slash : List Text → Bool
have_no_slash [] = true
have_no_slash (l ∷ ls) = if has_no_slash l then have_no_slash ls else false

abbrev levels_behind : Option Text → List Text
levels_behind none = []
levels_behind (some rest) = levels rest

pub levels-find_sep :
    (s : Text) → levels s ≡ (find_sep slash s).0 ∷ levels_behind (find_sep slash s).1
unfolding levels find_sep
levels-find_sep [] = refl
levels-find_sep (c ∷ s) = ground (arith, levels-find_sep s)

find_sep_shorter : (s rest : Text) → (find_sep slash s).1 ≡ some rest → length rest < length s
unfolding find_sep
find_sep_shorter [] rest h = cc
find_sep_shorter (c ∷ s) rest h = ground (arith, find_sep_shorter s rest)

pub split_loop-levels : (fuel : ℕ) (s : Text) → length s < fuel → split_loop fuel s ≡ levels s
unfolding split_loop
split_loop-levels zero s h = absurd (omega arith)
split_loop-levels (suc fuel) s h = elim (Option-cases (find_sep slash s).1) [
  | inl e ↦ ground (arith, levels-find_sep s)
  | inr (r, e) ↦ ground (arith, levels-find_sep s, find_sep_shorter s r e, split_loop-levels fuel r)
]

-- `splitTopic` returns the levels of the text, unless there are more than the limit.
pub split_topic-levels :
    (limit : ℕ) (s : Text)
    → split_topic limit s
      ≡ (if ltb limit (length (levels s)) then err too_many_levels else ok (levels s))
unfolding split_topic
split_topic-levels limit s = ground (arith, split_loop-levels (suc (length s)) s)

recompose_loop-join :
    (ls : List Text) (l acc : Text) → recompose_loop ls (acc ++ l) ≡ acc ++ join (l ∷ ls)
unfolding recompose_loop join
recompose_loop-join [] l acc = refl
recompose_loop-join (m ∷ ls) l acc =
    ap (recompose_loop ls) (sym (append_assoc (acc ++ l) (slash ∷ []) m))
    ∙ recompose_loop-join ls m ((acc ++ l) ++ slash ∷ [])
    ∙ append_assoc (acc ++ l) (slash ∷ []) (join (m ∷ ls))
    ∙ append_assoc acc l (slash ∷ join (m ∷ ls))

pub recompose_topic-join : (ls : List Text) → recompose_topic ls ≡ join ls
unfolding recompose_topic join
recompose_topic-join [] = refl
recompose_topic-join (l ∷ ls) = recompose_loop-join ls l []

pub levels_cons : (s : Text) → (l : Text) × (ls : List Text) × (levels s ≡ l ∷ ls)
levels_cons s = (_, _, levels-find_sep s)

join-push_first :
    (c : ℕ) (l : Text) (ls : List Text) → join (push_first c (l ∷ ls)) ≡ c ∷ join (l ∷ ls)
unfolding join
join-push_first c l [] = refl
join-push_first c l (m ∷ ls) = refl

pub join-levels : (s : Text) → join (levels s) ≡ s
unfolding levels join
join-levels [] = refl
join-levels (c ∷ s) =
    let (l, ls, e) = levels_cons s in ground (arith, e, join-levels s, join-push_first c l ls)

pub levels_no_slash : (l : Text) → has_no_slash l ≡ true → levels l ≡ l ∷ []
unfolding levels has_no_slash
levels_no_slash [] h = refl
levels_no_slash (c ∷ l) h = ground (arith, levels_no_slash l)

pub levels-append : (l s : Text) → has_no_slash l ≡ true → levels (l ++ slash ∷ s) ≡ l ∷ levels s
unfolding levels has_no_slash
levels-append [] s h = ground arith
levels-append (c ∷ l) s h = ground (arith, levels-append l s)

pub levels-join :
    (l : Text) (ls : List Text) → have_no_slash (l ∷ ls) ≡ true → levels (join (l ∷ ls)) ≡ l ∷ ls
unfolding join have_no_slash
levels-join l [] h = ground (arith, levels_no_slash l)
levels-join l (m ∷ ls) h = ground (arith, levels-append l (join (m ∷ ls)), levels-join m ls)

pub levels-have_no_slash : (s : Text) → have_no_slash (levels s) ≡ true
unfolding levels have_no_slash has_no_slash
levels-have_no_slash [] = refl
levels-have_no_slash (c ∷ s) =
    let (l, ls, e) = levels_cons s in ground (arith, e, levels-have_no_slash s)

-- Splitting a topic and composing it again gives the topic back, whenever the split succeeds, and
-- none of the levels has a slash.
pub recompose-split_topic :
    (limit : ℕ) (s : Text) (ls : List Text)
    → split_topic limit s ≡ ok ls
    → (recompose_topic ls ≡ s) × (have_no_slash ls ≡ true) × (length ls ≤ limit)
recompose-split_topic limit s ls h = ground (
  arith,
  split_topic-levels limit s,
  recompose_topic-join (levels s),
  join-levels s,
  levels-have_no_slash s,
)

-- Composing levels and splitting again gives the levels back, if there is at least one of them, at
-- most as many as the limit, and none has a slash.
pub split-recompose_topic :
    (limit : ℕ) (l : Text) (ls : List Text)
    → have_no_slash (l ∷ ls) ≡ true
    → length (l ∷ ls) ≤ limit
    → split_topic limit (recompose_topic (l ∷ ls)) ≡ ok (l ∷ ls)
split-recompose_topic limit l ls h small =
    rw (recompose_topic-join (l ∷ ls), split_topic-levels, levels-join l ls h) (ground arith)
