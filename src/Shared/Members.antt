-- ===== src/Shared/Members.antt =====
-- sharedsubscribers.cpp: the members of a shared subscription by their client ids.
use flash_mq.Base.{
  ℕ, zero, suc, ◌<◌, ◌≡◌, refl, sym, ap, false, List, [], ◌∷◌, ◌++◌, Option, none, some, length,
  length-append, length-set, get_elem?, set, get_elem?-set_self, get_elem?-set_ne, if◌then◌else◌,
  arith, Bool-cases, inl, inr,
}
use flash_mq.Base.Text.{Text, str_eq, str_eq_iff, eq_of_str_eq}
use flash_mq.Base.Dict.{lookup, insert, lookup-insert}
use flash_mq.Shared.{
  Subscription, SharedSubscribers, or_empty, member_at, assign_at, assign_member, get_member,
}

abbrev pub Index : Type 0
Index = List (Text × ℕ)

-- No client twice.
abbrev pub Keys : Index → Type 0
Keys [] = Unit {0}
Keys ((c, i) ∷ index) = (lookup c index ≡ none) × Keys index

insert-Keys : (c : Text) (i : ℕ) (index : Index) → Keys index → Keys (insert c i index)
unfolding lookup insert
insert-Keys c i [] v = (refl, tt)
insert-Keys c i ((d, k) ∷ index) (new, v) = elim (Bool-cases (str_eq d c)) [
  | inl e ↦ rw (e, sym (eq_of_str_eq d c e)) (new, v)
  | inr ne ↦ rw ne (
    ground (arith, lookup-insert c d i index, str_eq_iff d c, str_eq_iff c d),
    insert-Keys c i index v,
  )
]

-- Every client has a place of its own among the members.
pub record IsValid (members : List Subscription) (index : Index) : Type 0 where
  pub inside : (j : Text) (i : ℕ) → lookup j index ≡ some i → i < length members
  pub keys : Keys index
  pub apart : (j k : Text) (i : ℕ) → lookup j index ≡ some i → lookup k index ≡ some i → j ≡ k

abbrev pub view : List Subscription → Index → Text → Subscription
view members index j = member_at (lookup j index) members

get_elem?-append :
    (xs : List Subscription) (y : Subscription) (i : ℕ)
    → i < length xs
    → get_elem? (xs ++ y ∷ []) i ≡ get_elem? xs i
get_elem?-append [] y i h = absurd (omega arith)
get_elem?-append (x ∷ xs) y zero h = refl
get_elem?-append (x ∷ xs) y (suc i) h = get_elem?-append xs y i (omega arith)

get_elem?-last :
    (xs : List Subscription) (y : Subscription) → get_elem? (xs ++ y ∷ []) (length xs) ≡ some y
get_elem?-last [] y = refl
get_elem?-last (x ∷ xs) y = get_elem?-last xs y

-- A client without a place gets a new one at the end.
module _ (members : List Subscription) (index : Index) (c : Text) (sub : Subscription)
    (v : IsValid members index) (new : lookup c index ≡ none) where
  pub join-IsValid : IsValid (members ++ sub ∷ []) (insert c (length members) index)
  join-IsValid = record {
    keys = insert-Keys c (length members) index v.keys;
    inside = λ j i h. ground (
      arith,
      lookup-insert c j (length members) index,
      length-append members (sub ∷ []),
      v.inside j i,
    );
    apart = λ j k i h g. ground (
      arith,
      lookup-insert c j (length members) index,
      lookup-insert c k (length members) index,
      v.inside j i,
      v.inside k i,
      v.apart j k i,
      str_eq_iff c j,
      str_eq_iff c k,
    );
  }

  view-old :
      (j : Text) (o : Option ℕ)
      → lookup j index ≡ o
      → member_at o (members ++ sub ∷ []) ≡ member_at o members
  view-old j none h = refl
  view-old j (some i) h = ap or_empty (get_elem?-append members sub i (v.inside j i h))

  pub view-join :
      (j : Text)
      → view (members ++ sub ∷ []) (insert c (length members) index) j
        ≡ (if str_eq c j then sub else view members index j)
  view-join j = elim (Bool-cases (str_eq c j)) [
    | inl e ↦
        rw (lookup-insert c j (length members) index, e) (ap or_empty (get_elem?-last members sub))
    | inr ne ↦ rw (lookup-insert c j (length members) index, ne) (view-old j (lookup j index) refl)
  ]

-- A member is replaced in its place.
module _ (members : List Subscription) (index : Index) (c : Text) (i : ℕ) (sub : Subscription)
    (v : IsValid members index) (known : lookup c index ≡ some i) where
  set-IsValid : IsValid (set members i sub) index
  set-IsValid = record {
    keys = v.keys;
    inside = λ j k h. ground (arith, length-set members i sub, v.inside j k h);
    apart = v.apart;
  }

  view-other :
      (j : Text) (o : Option ℕ)
      → lookup j index ≡ o
      → str_eq c j ≡ false
      → member_at o (set members i sub) ≡ member_at o members
  view-other j none h ne = refl
  view-other j (some k) h ne = ap or_empty (
      get_elem?-set_ne members sub
        (λ (e : i ≡ k). ground (arith, e, v.apart c j i known, str_eq_iff c j, h)))

  view-set :
      (j : Text)
      → view (set members i sub) index j ≡ (if str_eq c j then sub else view members index j)
  view-set j = elim (Bool-cases (str_eq c j)) [
    | inl e ↦
        rw (e, sym (eq_of_str_eq c j e), known)
          (ap or_empty (get_elem?-set_self members i sub (v.inside c i known)))
    | inr ne ↦ rw ne (view-other j (lookup j index) refl ne)
  ]

abbrev pub SharedIsValid : SharedSubscribers → Type 0
SharedIsValid s = IsValid s.members s.index

assign_at-IsValid :
    (o : Option ℕ) (c : Text) (sub : Subscription) (s : SharedSubscribers)
    → lookup c s.index ≡ o
    → SharedIsValid s
    → SharedIsValid (assign_at o c sub s)
      × ((j : Text)
          → (let s' = assign_at o c sub s in
              view s'.members s'.index j ≡ (if str_eq c j then sub else view s.members s.index j)))
assign_at-IsValid none c sub s h v =
    (join-IsValid s.members s.index c sub v h, view-join s.members s.index c sub v h)
assign_at-IsValid (some i) c sub s h v =
    (set-IsValid s.members s.index c i sub v h, view-set s.members s.index c i sub v h)

-- Assigning to `operator[]` of a client keeps the invariant, changes the subscription of that client,
-- whether it is new or not, and of no other.
pub assign_member-IsValid :
    (c : Text) (sub : Subscription) (s : SharedSubscribers)
    → SharedIsValid s
    → SharedIsValid (assign_member c sub s)
      × ((j : Text)
          → get_member j (assign_member c sub s) ≡ (if str_eq c j then sub else get_member j s))
unfolding assign_member get_member
assign_member-IsValid c sub s v = assign_at-IsValid (lookup c s.index) c sub s refl v
