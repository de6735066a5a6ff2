-- ===== src/Shared/Choice.antt =====
-- sharedsubscribers.cpp: the member of a shared subscription that gets a message.
use native.Mathlib.Nat.{div-add-mod, mod-lt}
use flash_mq.Base.{
  ℕ, zero, suc, ◌+◌, ◌-◌, ◌*◌, ◌/◌, ◌%◌, ◌^◌, ◌≤◌, ◌<◌, ◌≡◌, refl, sym, ◌∙◌, ap, true, false, List,
  [], ◌∷◌, Option, none, some, length, get_elem?, dec_lt, arith, Bool-cases, inl, inr,
}
use flash_mq.Base.Bits.{mod_of_parts}
use flash_mq.Shared.{
  Sessions, Subscription, SharedSubscribers, expired, or_empty, get_first, to_size, next_loop,
  get_next, hash_loop, get_next_hash,
}

abbrev pub nth : List Subscription → ℕ → Subscription
nth members k = or_empty (get_elem? members k)

-- Every position is reached within one round from any start.
pub reached : (n at k : ℕ) → k < n → (i : ℕ) × (i < n) × ((at + i) % n ≡ k)
reached n at k h = elim (dec_lt k (at % n)) [
  | yes behind ↦
      let small : at % n < n = mod-lt at (omega arith) in
      let e : at + (k + n - at % n) ≡ n * (at / n + 1) + k =
        grind (arith, div-add-mod at n, small) in
      (k + n - at % n, omega arith, mod_of_parts (at + (k + n - at % n)) n (at / n + 1) k e h)
  | no ahead ↦ (
    k - at % n,
    omega arith,
    mod_of_parts (at + (k - at % n)) n (at / n) k (omega (arith, div-add-mod at n)) h,
  )
]

module _ (alive : Sessions) (members : List Subscription) where
  -- The first member that is alive among `rounds` of them from a start, in a circle.
  abbrev FirstFrom : ℕ → ℕ → Option Subscription → Type 0
  FirstFrom at rounds none =
      (i : ℕ) → i < rounds → expired alive (nth members ((at + i) % length members)) ≡ true
  FirstFrom at rounds (some s) =
      (i : ℕ) × (i < rounds)
      × (s ≡ nth members ((at + i) % length members))
      × (expired alive s ≡ false)
      × ((j : ℕ) → j < i → expired alive (nth members ((at + j) % length members)) ≡ true)

  expired_before :
      (at k : ℕ)
      → expired alive (nth members (at % length members)) ≡ true
      → ((j : ℕ) → j < k → expired alive (nth members ((at + 1 + j) % length members)) ≡ true)
      → (j : ℕ) → j < suc k
      → expired alive (nth members ((at + j) % length members)) ≡ true
  expired_before at k first before zero l =
      ap (λ (x : ℕ). expired alive (nth members (x % length members))) (omega arith) ∙ first
  expired_before at k first before (suc j) l =
      ap (λ (x : ℕ). expired alive (nth members (x % length members))) (omega arith)
      ∙ before j (omega arith)

  FirstFrom-more :
      (at rounds : ℕ) (r : Option Subscription)
      → expired alive (nth members (at % length members)) ≡ true
      → FirstFrom (at + 1) rounds r
      → FirstFrom at (suc rounds) r
  FirstFrom-more at rounds none h all = expired_before at rounds h all
  FirstFrom-more at rounds (some s) h (i, l, e, live, before) = (
    suc i,
    omega arith,
    e ∙ ap (λ (x : ℕ). nth members (x % length members)) (omega arith),
    live,
    expired_before at i h before,
  )

  hash_loop-FirstFrom :
      (rounds at : ℕ)
      → at + rounds < 2 ^ 64
      → FirstFrom at rounds (hash_loop alive members rounds at)
  unfolding hash_loop
  hash_loop-FirstFrom zero at h = λ i l. absurd (omega arith)
  hash_loop-FirstFrom (suc rounds) at h =
      elim (Bool-cases (expired alive (nth members (at % length members)))) [
        | inl dead ↦
            let e : (at + 1) % 2 ^ 64 ≡ at + 1 = omega arith in
            rw (dead, e)
              (FirstFrom-more at rounds _ dead (hash_loop-FirstFrom rounds (at + 1) (omega arith)))
        | inr live ↦ rw live (
          0,
          omega arith,
          ap (λ (x : ℕ). nth members (x % length members)) (omega arith),
          live,
          λ j l. absurd (omega arith),
        )
      ]

  -- One of the members that are alive, or nobody if all have expired.
  abbrev pub Delivers : Option Subscription → Type 0
  Delivers none = (k : ℕ) → k < length members → expired alive (nth members k) ≡ true
  Delivers (some s) =
      (k : ℕ) × (k < length members) × (s ≡ nth members k) × (expired alive s ≡ false)

  FirstFrom-none :
      (at : ℕ)
      → ((i : ℕ)
          → i < length members
          → expired alive (nth members ((at + i) % length members)) ≡ true)
      → (k : ℕ) → k < length members
      → expired alive (nth members k) ≡ true
  FirstFrom-none at all k l =
      let (i, small, e) = reached (length members) at k l in
      sym (ap (λ (x : ℕ). expired alive (nth members x)) e) ∙ all i small

  FirstFrom-Delivers :
      (at : ℕ) (r : Option Subscription)
      → 0 < length members
      → FirstFrom at (length members) r
      → Delivers r
  FirstFrom-Delivers at none p all = FirstFrom-none at all
  FirstFrom-Delivers at (some s) p (i, l, e, live, before) =
      ((at + i) % length members, mod-lt (at + i) p, e, live)

expired_more :
    (alive : Sessions) (s : Subscription) (members : List Subscription)
    → expired alive s ≡ true
    → ((k : ℕ) → k < length members → expired alive (nth members k) ≡ true)
    → (k : ℕ) → k < length (s ∷ members)
    → expired alive (nth (s ∷ members) k) ≡ true
expired_more alive s members h all zero l = h
expired_more alive s members h all (suc k) l = all k (omega arith)

Delivers-more :
    (alive : Sessions) (s : Subscription) (members : List Subscription) (r : Option Subscription)
    → expired alive s ≡ true
    → Delivers alive members r
    → Delivers alive (s ∷ members) r
Delivers-more alive s members none h all = expired_more alive s members h all
Delivers-more alive s members (some r) h (k, l, e, live) = (suc k, omega arith, e, live)

-- `getNext(hash)` returns a member that is alive if there is one, for any hash and fewer than
-- 2 ^ 63 members.
pub get_next_hash-Delivers :
    (alive : Sessions) (members : List Subscription) (hash : ℕ)
    → length members < 2 ^ 63
    → Delivers alive members (get_next_hash alive hash members)
unfolding get_next_hash
get_next_hash-Delivers alive [] hash h = λ k l. absurd (omega arith)
get_next_hash-Delivers alive (s ∷ members) hash h =
    let all = s ∷ members in
    let at = hash % length all in
    let small : at < length all = mod-lt hash (omega arith) in
    FirstFrom-Delivers alive all at (hash_loop alive all (length all) at) (omega arith)
      (hash_loop-FirstFrom alive all (length all) at (omega arith))

-- `getFirst` returns the first member that is alive, if there is one.
pub get_first-Delivers :
    (alive : Sessions) (members : List Subscription)
    → Delivers alive members (get_first alive members)
unfolding get_first
get_first-Delivers alive [] = λ k l. absurd (omega arith)
get_first-Delivers alive (s ∷ members) = elim (Bool-cases (expired alive s)) [
  | inl dead ↦ rw dead (
      Delivers-more alive s members (get_first alive members) dead
        (get_first-Delivers alive members))
  | inr live ↦ rw live (0, omega arith, refl, live)
]

-- The round robin: the first member alive from the counter on gets the message, and the next
-- message goes on behind it.
abbrev pub InTurn : Sessions → SharedSubscribers → Option Subscription × SharedSubscribers → Type 0
InTurn alive s (none, s') =
    ((k : ℕ) → k < length s.members → expired alive (nth s.members k) ≡ true)
    × (s' ≡ record s { round_robin_counter = s.round_robin_counter + length s.members })
InTurn alive s (some sub, s') =
    (i : ℕ) × (i < length s.members)
    × (sub ≡ nth s.members ((s.round_robin_counter + i) % length s.members))
    × (expired alive sub ≡ false)
    × ((j : ℕ)
        → j < i
        → expired alive (nth s.members ((s.round_robin_counter + j) % length s.members)) ≡ true)
    × (s' ≡ record s { round_robin_counter = s.round_robin_counter + i + 1 })

abbrev LoopInTurn : Sessions → List Subscription → ℕ → ℕ → Option Subscription × ℕ → Type 0
LoopInTurn alive members rounds counter (none, counter') =
    ((i : ℕ) → i < rounds → expired alive (nth members ((counter + i) % length members)) ≡ true)
    × (counter' ≡ counter + rounds)
LoopInTurn alive members rounds counter (some s, counter') =
    (i : ℕ) × (i < rounds)
    × (s ≡ nth members ((counter + i) % length members))
    × (expired alive s ≡ false)
    × ((j : ℕ) → j < i → expired alive (nth members ((counter + j) % length members)) ≡ true)
    × (counter' ≡ counter + i + 1)

LoopInTurn-more :
    (alive : Sessions) (members : List Subscription) (rounds counter : ℕ)
    (r : Option Subscription × ℕ)
    → expired alive (nth members (counter % length members)) ≡ true
    → LoopInTurn alive members rounds (counter + 1) r
    → LoopInTurn alive members (suc rounds) counter r
LoopInTurn-more alive members rounds counter (none, c) h (all, e) =
    (expired_before alive members counter rounds h all, omega arith)
LoopInTurn-more alive members rounds counter (some s, c) h (i, l, e, live, before, f) = (
  suc i,
  omega arith,
  e ∙ ap (λ (x : ℕ). nth members (x % length members)) (omega arith),
  live,
  expired_before alive members counter i h before,
  omega arith,
)

next_loop-LoopInTurn :
    (alive : Sessions) (members : List Subscription) (rounds counter : ℕ)
    → counter + rounds ≤ 2 ^ 31
    → LoopInTurn alive members rounds counter (next_loop alive members rounds counter)
unfolding next_loop to_size
next_loop-LoopInTurn alive members zero counter h = (λ i l. absurd (omega arith), omega arith)
next_loop-LoopInTurn alive members (suc rounds) counter h =
    let plain : to_size counter ≡ counter = ground arith in
    let e : (counter + 1) % 2 ^ 32 ≡ counter + 1 = omega arith in
    elim (Bool-cases (expired alive (nth members (counter % length members)))) [
      | inl dead ↦
          rw (plain, dead, e)
            (LoopInTurn-more alive members rounds counter _ dead
              (next_loop-LoopInTurn alive members rounds (counter + 1) (omega arith)))
      | inr live ↦
          rw (plain, live, e)
            (
              0,
              omega arith,
              ap (λ (x : ℕ). nth members (x % length members)) (omega arith),
              live,
              λ j l. absurd (omega arith),
              omega arith,
            )
    ]

LoopInTurn-InTurn :
    (alive : Sessions) (s : SharedSubscribers) (r : Option Subscription × ℕ)
    → LoopInTurn alive s.members (length s.members) s.round_robin_counter r
    → InTurn alive s (r.0, record s { round_robin_counter = r.1 })
LoopInTurn-InTurn alive s (none, c) (all, e) = (
  FirstFrom-none alive s.members s.round_robin_counter all,
  ap (λ c. record s { round_robin_counter = c }) e,
)
LoopInTurn-InTurn alive s (some sub, c) (i, l, e, live, before, f) =
    (i, l, e, live, before, ap (λ c. record s { round_robin_counter = c }) f)

-- `getNext()` returns the first member alive from the counter on, going round, and moves the counter
-- behind it, so that the next message goes to a later member; it returns none only if all have
-- expired. The `int` counter must not overflow.
pub get_next-InTurn :
    (alive : Sessions) (s : SharedSubscribers)
    → s.round_robin_counter + length s.members ≤ 2 ^ 31
    → InTurn alive s (get_next alive s)
unfolding get_next
get_next-InTurn alive s h =
    LoopInTurn-InTurn alive s (next_loop alive s.members (length s.members) s.round_robin_counter)
      (next_loop-LoopInTurn alive s.members (length s.members) s.round_robin_counter h)
