-- ===== src/Shared/Purge.antt =====
-- sharedsubscribers.cpp: `purgeAndReIndex`.
use flash_mq.Base.{
  ℕ, ◌≡◌, refl, sym, ◌∙◌, ap, false, List, [], ◌∷◌, ◌++◌, Option, none, some, length, get_elem?,
  if◌then◌else◌, arith, Bool-cases, inl, inr,
}
use flash_mq.Base.Text.{Text, str_eq, str_eq_iff, str_eq_refl, eq_of_str_eq}
use flash_mq.Base.Dict.{lookup, insert, lookup-insert}
use flash_mq.Shared.{
  Sessions, Subscription, SharedSubscribers, expired, empty_subscription, or_empty, member_at,
  get_member, purge_loop, purge_and_re_index,
}
use flash_mq.Shared.Members.{Index, Keys, IsValid, SharedIsValid, view, join-IsValid, view-join}

module _ (alive : Sessions) where
  -- The subscription at a place that was cleared up, with what another had there.
  abbrev kept : List Subscription → Option ℕ → Subscription → Subscription
  kept members none old = old
  kept members (some i) old =
      let sub = or_empty (get_elem? members i) in if expired alive sub then old else sub

  abbrev pub AllAlive : List Subscription → Type 0
  AllAlive [] = Unit {0}
  AllAlive (s ∷ members) = (expired alive s ≡ false) × AllAlive members

  AllAlive-append :
      (members : List Subscription) (s : Subscription)
      → AllAlive members
      → expired alive s ≡ false
      → AllAlive (members ++ s ∷ [])
  AllAlive-append [] s v h = (h, tt)
  AllAlive-append (m ∷ members) s (a, v) h = (a, AllAlive-append members s v h)

  record Purged (members : List Subscription) (index : Index) (nm : List Subscription) (ni : Index)
      (r : List Subscription × Index) : Type 0 where
    valid : IsValid r.0 r.1
    views : (j : Text) → view r.0 r.1 j ≡ kept members (lookup j index) (view nm ni j)
    live : AllAlive r.0

  purge_loop-Purged :
      (members : List Subscription) (index : Index) (nm : List Subscription) (ni : Index)
      → Keys index
      → IsValid nm ni
      → AllAlive nm
      → ((j : Text) (i : ℕ) → lookup j index ≡ some i → lookup j ni ≡ none)
      → Purged members index nm ni (purge_loop alive members index nm ni)
  unfolding purge_loop lookup
  purge_loop-Purged members [] nm ni keys v a new = record {
    valid = v;
    views = λ j. refl;
    live = a;
  }
  purge_loop-Purged members ((c, i) ∷ index) nm ni (alone, keys) v a new =
      let sub = or_empty (get_elem? members i) in
      let lookup_c : lookup c ((c, i) ∷ index) ≡ some i = ground (arith, str_eq_refl c) in
      let fresh : lookup c ni ≡ none = new c i lookup_c in
      elim (Bool-cases (expired alive sub)) [
        | inl dead ↦
            let r =
              purge_loop-Purged members index nm ni keys v a
                (λ j k h. new j k (ground (arith, h, alone, str_eq_iff c j))) in
            rw dead (record {
              valid = r.valid;
              live = r.live;
              views = λ j. r.views j ∙ elim (Bool-cases (str_eq c j)) [
                | inl e ↦ rw (e, sym (eq_of_str_eq c j e), alone, dead) refl
                | inr ne ↦ rw ne refl
              ];
            })
        | inr live ↦
            let r =
              purge_loop-Purged members index (nm ++ sub ∷ []) (insert c (length nm) ni) keys
                (join-IsValid nm ni c sub v fresh) (AllAlive-append nm sub a live)
                (λ j k h.
                  ground
                    (arith, lookup-insert c j (length nm) ni, h, alone, str_eq_iff c j, new j k)) in
            rw live (record {
              valid = r.valid;
              live = r.live;
              views = λ j.
                  r.views j
                  ∙ ap (kept members (lookup j index)) (view-join nm ni c sub v fresh j)
                  ∙ elim (Bool-cases (str_eq c j)) [
                    | inl e ↦ rw (e, sym (eq_of_str_eq c j e), alone, live) refl
                    | inr ne ↦ rw ne refl
                  ];
            })
      ]

pub nothing-IsValid : IsValid [] []
unfolding lookup
nothing-IsValid = record { keys = tt; inside = λ j i h. absurd cc; apart = λ j k i h g. absurd cc }

kept-empty :
    (alive : Sessions) (members : List Subscription) (o : Option ℕ)
    → kept alive members o empty_subscription
      ≡ (if expired alive (member_at o members) then empty_subscription else member_at o members)
unfolding expired
kept-empty alive members none = refl
kept-empty alive members (some i) = refl

-- `purgeAndReIndex` keeps the invariant and, for each client, its subscription if that is alive;
-- what it leaves is alive.
pub purge_and_re_index-Purged :
    (alive : Sessions) (s : SharedSubscribers)
    → SharedIsValid s
    → (let s' = purge_and_re_index alive s in
        SharedIsValid s'
        × AllAlive alive s'.members
        × ((j : Text)
            → get_member j s'
              ≡ (if expired alive (get_member j s) then empty_subscription else get_member j s)))
unfolding purge_and_re_index get_member lookup
purge_and_re_index-Purged alive s v =
    let r =
      purge_loop-Purged alive s.members s.index [] [] v.keys nothing-IsValid tt (λ j i h. refl) in
    (r.valid, r.live, λ j. r.views j ∙ kept-empty alive s.members (lookup j s.index))
