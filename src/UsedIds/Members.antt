-- ===== src/UsedIds/Members.antt =====
-- The set of ids that a valid `UsedIds` stands for, whichever of its two forms it is in.
use flash_mq.Base.Count.{sum_below}
use flash_mq.Base.{
  ℕ, suc, ◌+◌, ◌≤◌, ◌<◌, ◌≡◌, refl, sym, ◌∙◌, ap, Bool, true, false, not, ◌&&◌, ◌||◌, List, [], ◌∷◌,
  ◌++◌, Option, none, some, length, length-set, length-replicate, set, take, replicate, any,
  any-append, leb, ◌==◌, arith, Bool-cases, inl, inr,
}
use flash_mq.UsedIds.{
  UsedIds, num_values, words, small_max, init, contains, contains_in, convert, mark, mark_all,
  insert, erase, ids_is_used, erase_in, ids_mark_used, ids_mark_free, bits_mark_used,
  bits_mark_free,
}
use flash_mq.UsedIds.Array.{
  is, Distinct, AllBelow, ids_is_used-any, take-set, length-free_loop, take-free_loop, any-remove,
  remove-Distinct, remove-AllBelow, append-Distinct, append-AllBelow, left,
}
use flash_mq.UsedIds.Words.{
  bit_of, bit_of-le, bits_is_used-bit_of, bits_mark_used-Sets, bits_mark_free-Sets, bit_of-fresh,
  count-fresh, count-vanish,
}

-- The invariant of each form: distinct ids in the array and no count, or a full vector of words
-- whose set bits are counted.
abbrev pub FormIsValid : UsedIds → Option (List ℕ) → Type 0
FormIsValid u none =
    Distinct (take u.ids_used u.ids)
    × AllBelow num_values (take u.ids_used u.ids)
    × (u.bits_used ≡ 0)
FormIsValid u (some ws) = (length ws ≡ words) × (u.bits_used ≡ sum_below num_values (bit_of ws))

pub record IsValid (u : UsedIds) : Type 0 where
  pub room : length u.ids ≡ small_max
  pub fits : u.ids_used ≤ small_max
  pub form : FormIsValid u u.bits

abbrev member : UsedIds → Option (List ℕ) → ℕ → Bool
member u none j = any (is j) (take u.ids_used u.ids)
member u (some ws) j = bit_of ws j == 1

-- What `id` in use and `id` not in use add to a set.
abbrev pub with_id : Bool → ℕ → Bool → ℕ → Bool
with_id true id old j = id == j || old
with_id false id old j = not (id == j) && old

-- `v` is valid, and its members are those of `u` with `id` in or out of use.
abbrev pub Changes : Bool → ℕ → UsedIds → UsedIds → Type 0
Changes b id u v =
    IsValid v × ((j : ℕ) → j < num_values → contains v j ≡ with_id b id (contains u j) j)

contains_in-member : (b : Option (List ℕ)) (u : UsedIds) (j : ℕ) → contains_in b u j ≡ member u b j
unfolding contains_in
contains_in-member none u j = ids_is_used-any u.ids u.ids_used j
contains_in-member (some ws) u j = bits_is_used-bit_of ws j

contains-member : (u : UsedIds) (j : ℕ) → contains u j ≡ member u u.bits j
unfolding contains
contains-member u j = contains_in-member u.bits u j

contains-of : (u : UsedIds) (b : Option (List ℕ)) (j : ℕ) → u.bits ≡ b → contains u j ≡ member u b j
contains-of u b j e = contains-member u j ∙ ap (λ c. member u c j) e

IsValid-of :
    (u : UsedIds) (b : Option (List ℕ))
    → u.bits ≡ b
    → length u.ids ≡ small_max
    → u.ids_used ≤ small_max
    → FormIsValid u b
    → IsValid u
IsValid-of u b e room fits form = record { room = room; fits = fits; form = rw e form }

some-Changes :
    (ws : List ℕ) (id : ℕ) (u : UsedIds)
    → u.bits ≡ some ws
    → IsValid u
    → id < num_values
    → Changes true id u (mark (some ws) id u)
unfolding mark
some-Changes ws id u e v small =
    let form : FormIsValid u (some ws) = rw e at v.form in
    let s = bits_mark_used-Sets ws u.bits_used id form.0 small form.1 in
    (
      record { room = v.room; fits = v.fits; form = (s.size, s.count) },
      λ j l.
          contains-of (mark (some ws) id u) (some (bits_mark_used id (ws, u.bits_used)).0) j refl
          ∙ ground (arith, s.reads j, contains-of u (some ws) j e, bit_of-le ws j),
    )

none-Changes :
    (id : ℕ) (u : UsedIds)
    → u.bits ≡ none
    → IsValid u
    → u.ids_used < small_max
    → id < num_values
    → Changes true id u (mark none id u)
unfolding mark ids_mark_used
none-Changes id u e v room small =
    let form : FormIsValid u none = rw e at v.form in
    let in_use = take u.ids_used u.ids in
    let scan = ids_is_used-any u.ids u.ids_used id in
    elim (Bool-cases (ids_is_used u.ids u.ids_used id)) [
      | inl there ↦
          rw there
            (v, λ j l. ground (arith, contains-of u none id e, λ (k : id ≡ j). ap (contains u) k))
      | inr absent ↦
          let w : UsedIds = record u { ids = set u.ids u.ids_used id; ids_used = u.ids_used + 1 } in
          let one : u.ids_used + 1 ≡ suc u.ids_used = omega arith in
          let grown : take (u.ids_used + 1) w.ids ≡ in_use ++ id ∷ [] =
            ap (λ n. take n w.ids) one ∙ take-set u.ids u.ids_used id (omega (arith, v.room)) in
          rw absent (
            IsValid-of w none e (length-set u.ids u.ids_used id ∙ v.room) (omega arith) (
              rw grown (append-Distinct in_use id form.0 (sym scan ∙ absent)),
              rw grown (append-AllBelow num_values in_use id form.1 small),
              form.2,
            ),
            λ j l.
                contains-of w none j e
                ∙ ap (any (is j)) grown
                ∙ any-append (is j) in_use (id ∷ [])
                ∙ ground (arith, contains-of u none j e),
          )
    ]

-- A set bit for each id of a list, or one that was set before.
record AllMarked (l : List ℕ) (before after : List ℕ × ℕ) : Type 0 where
  size : length after.0 ≡ words
  reads : (j : ℕ) → (bit_of after.0 j == 1) ≡ (any (is j) l || bit_of before.0 j == 1)
  count : after.1 ≡ sum_below num_values (bit_of after.0)

mark_all-AllMarked :
    (l ws : List ℕ) (used : ℕ)
    → length ws ≡ words
    → used ≡ sum_below num_values (bit_of ws)
    → AllBelow num_values l
    → AllMarked l (ws, used) (mark_all l (ws, used))
unfolding mark_all
mark_all-AllMarked [] ws used size count b = record {
  size = size;
  reads = λ j. refl;
  count = count;
}
mark_all-AllMarked (x ∷ l) ws used size count b =
    let s = bits_mark_used-Sets ws used x size b.0 count in
    let t = mark_all-AllMarked l _ _ s.size s.count b.1 in
    record {
      size = t.size;
      reads = λ j. t.reads j ∙ ground (arith, s.reads j, bit_of-le ws j);
      count = t.count;
    }

-- The conversion keeps the members, and afterwards the array has room if it is still in use.
abbrev Converted : UsedIds → UsedIds → Type 0
Converted u v =
    IsValid v × ((j : ℕ) → contains v j ≡ contains u j) × (v.bits ≡ none → v.ids_used < small_max)

convert-Converted :
    (b : Option (List ℕ)) (u : UsedIds) → u.bits ≡ b → IsValid u → Converted u (convert b u)
unfolding convert
convert-Converted (some ws) u e v = (v, λ j. refl, λ h. ground arith)
convert-Converted none u e v = elim (Bool-cases (leb small_max u.ids_used)) [
  | inr room ↦ rw room (v, λ j. refl, λ h. ground arith)
  | inl full ↦
      let form : FormIsValid u none = rw e at v.form in
      let l = take u.ids_used u.ids in
      let t =
        mark_all-AllMarked l (replicate words 0) u.bits_used (length-replicate words 0)
          (form.2 ∙ count-fresh) form.1 in
      rw full (
        record { room = v.room; fits = omega arith; form = (t.size, t.count) },
        λ j.
            contains-of _ (some (mark_all l (replicate words 0, u.bits_used)).0) j refl
            ∙ ground (arith, t.reads j, contains-of u none j e, bit_of-fresh j),
        λ h. ground arith,
      )
]

mark-Changes :
    (b : Option (List ℕ)) (id : ℕ) (u : UsedIds)
    → u.bits ≡ b
    → IsValid u
    → (u.bits ≡ none → u.ids_used < small_max)
    → id < num_values
    → Changes true id u (mark b id u)
mark-Changes (some ws) id u e v room small = some-Changes ws id u e v small
mark-Changes none id u e v room small = none-Changes id u e v (room e) small

-- `insert` keeps the invariant, adds its id to the members and no other, whether or not it turns
-- the array into a bit set on the way.
pub insert-Changes :
    (id : ℕ) (u : UsedIds) → IsValid u → id < num_values → Changes true id u (insert id u)
unfolding insert
insert-Changes id u v small =
    let (valid, same, room) = convert-Converted u.bits u refl v in
    let u' = convert u.bits u in
    let (valid', reads) = mark-Changes u'.bits id u' refl valid room small in
    (valid', λ j l. reads j l ∙ ap (λ c. id == j || c) (same j))

erase_some-Changes :
    (ws : List ℕ) (id : ℕ) (u : UsedIds)
    → u.bits ≡ some ws
    → IsValid u
    → id < num_values
    → Changes false id u (erase_in (some ws) id u)
unfolding erase_in
erase_some-Changes ws id u e v small =
    let form : FormIsValid u (some ws) = rw e at v.form in
    let s = bits_mark_free-Sets ws u.bits_used id form.0 small form.1 in
    let (ws', used) = bits_mark_free id (ws, u.bits_used) in
    elim (Bool-cases (used == 0)) [
      | inl gone ↦ rw gone (
        record { room = v.room; fits = omega arith; form = (tt, tt, ground arith) },
        λ j l.
            contains-of (record u { ids_used = 0; bits = none; bits_used = used }) none j refl
            ∙ ground (
              arith,
              s.reads j,
              contains-of u (some ws) j e,
              bit_of-le ws j,
              count-vanish ws' j (ground (arith, s.count)) l,
            ),
      )
      | inr left ↦ rw left (
        record { room = v.room; fits = v.fits; form = (s.size, s.count) },
        λ j l.
            contains-of (record u { bits = some ws'; bits_used = used }) (some ws') j refl
            ∙ ground (arith, s.reads j, contains-of u (some ws) j e, bit_of-le ws j),
      )
    ]

erase_none-Changes :
    (id : ℕ) (u : UsedIds) → u.bits ≡ none → IsValid u → Changes false id u (erase_in none id u)
unfolding erase_in ids_mark_free
erase_none-Changes id u e v =
    let form : FormIsValid u none = rw e at v.form in
    let l = take u.ids_used u.ids in
    let (found, rest) = take-free_loop u.ids u.ids_used id (omega (arith, v.room, v.fits)) in
    (
      IsValid-of (ids_mark_free id u) none e (length-free_loop u.ids u.ids_used id ∙ v.room)
          (ground arith)
          (
            rw rest (remove-Distinct id l form.0),
            rw rest (remove-AllBelow num_values id l form.1),
            form.2,
          ),
      λ j _.
          contains-of (ids_mark_free id u) none j e
          ∙ ap (any (is j)) rest
          ∙ any-remove id j l form.0
          ∙ ground (arith, contains-of u none j e),
    )

erase_in-Changes :
    (b : Option (List ℕ)) (id : ℕ) (u : UsedIds)
    → u.bits ≡ b
    → IsValid u
    → id < num_values
    → Changes false id u (erase_in b id u)
erase_in-Changes (some ws) id u e v small = erase_some-Changes ws id u e v small
erase_in-Changes none id u e v small = erase_none-Changes id u e v

-- `erase` keeps the invariant, takes its id out of the members and no other, also where it drops
-- the bit set because none is left.
pub erase-Changes :
    (id : ℕ) (u : UsedIds) → IsValid u → id < num_values → Changes false id u (erase id u)
unfolding erase
erase-Changes id u v small = erase_in-Changes u.bits id u refl v small

-- A new object is valid and has no members.
pub init-IsValid : IsValid init × ((j : ℕ) → contains init j ≡ false)
unfolding init
init-IsValid = (
  record { room = length-replicate {A = ℕ} small_max 0; fits = omega arith; form = (tt, tt, refl) },
  λ j. contains-of init none j refl,
)
