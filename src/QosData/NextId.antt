-- ===== src/QosData/NextId.antt =====
-- `getNextPacketId`: what its search for a free id finds, and when it ends.
use flash_mq.Base.{
  ℕ, zero, suc, ◌+◌, ◌-◌, ◌%◌, ◌<◌, ◌≡◌, ◌≢◌, refl, sym, ◌∙◌, ap, true, false, ◌||◌, ◌⊎◌, inl, inr,
  Option, none, some, ◌==◌, arith, Bool-cases, ℕ_discrete,
}
use flash_mq.Base.Int.{pos, ◌-ℤ◌}
use flash_mq.UsedIds.Members.{IsValid, insert-Changes}
use flash_mq.UsedIds.{UsedIds, contains, num_values}
use flash_mq.QosData.{
  QosData, Search, found, came_round, stuck, next_id, search_loop, search, claim,
  get_next_packet_id, eq_ℤ,
}

-- The steps from one id to another, going round, that do not yet reach it.
abbrev dist : ℕ → ℕ → ℕ
dist cur j = (j + num_values - cur - 1) % num_values

abbrev pub IsFree : UsedIds → ℕ → Type 0
IsFree u j = (0 < j) × (j < num_values) × (contains u j ≡ false)

-- What the search found, having reached `cur`.
abbrev Result : UsedIds → ℕ → ℕ → Search → Type 0
Result u end cur (found n) = IsFree u n × (n ≢ end)
Result u end cur came_round =
    IsFree u end
    × ((j : ℕ) → 0 < j → j < num_values → dist cur j < dist cur end → contains u j ≡ true)
Result u end cur stuck = Unit {0}

dist_next :
    (cur j k : ℕ)
    → cur < num_values
    → j < num_values
    → k < num_values
    → j ≢ next_id cur
    → dist cur j < dist cur k
    → dist (next_id cur) j < dist (next_id cur) k
dist_next cur j k h g l ne d = omega arith

skip :
    (u : UsedIds) (end cur : ℕ) (r : Search)
    → cur < num_values
    → end < num_values
    → ((next_id cur ≡ 0) ⊎ (contains u (next_id cur) ≡ true))
    → Result u end (next_id cur) r
    → Result u end cur r
skip u end cur (found n) h g passed r = r
skip u end cur came_round h g passed (free, all) = (
  free,
  λ j p l d. elim (ℕ_discrete j (next_id cur)) [
    | no ne ↦ all j p l (dist_next cur j end h l g ne d)
    | yes e ↦ elim passed [ inl z ↦ absurd (omega arith) | inr c ↦ ap (contains u) e ∙ c ]
  ],
)
skip u end cur stuck h g passed r = tt

nonzero : (n : ℕ) → (n == 0) ≡ false → 0 < n
nonzero n h = ground arith

search_loop-Result :
    (fuel : ℕ) (u : UsedIds) (end cur : ℕ)
    → cur < num_values
    → end < num_values
    → Result u end cur (search_loop fuel u end cur)
unfolding search_loop
search_loop-Result zero u end cur h g = tt
search_loop-Result (suc fuel) u end cur h g =
    let n = next_id cur in
    let small : n < num_values = omega arith in
    let rest = λ (passed : (n ≡ 0) ⊎ (contains u n ≡ true)).
      skip u end cur (search_loop fuel u end n) h g passed
        (search_loop-Result fuel u end n small g) in
    elim (Bool-cases (n == 0)) [
      | inl z ↦ rw z (rest (inl (ground arith)))
      | inr nz ↦ elim (Bool-cases (contains u n)) [
        | inl c ↦ rw (nz, c) (rest (inr c))
        | inr f ↦ elim (Bool-cases (n == end)) [
          | inl e ↦
              let same : n ≡ end = ground arith in
              rw (nz, f, e)
                (
                  (omega (arith, nonzero n nz), g, ap (contains u) (sym same) ∙ f),
                  λ j p l d. absurd (omega arith),
                )
          | inr ne ↦ rw (nz, f, ne) ((ground arith, small, f), ground arith)
        ]
      ]
    ]

-- With a free id ahead, the search ends within the steps to it.
search_ends :
    (fuel : ℕ) (u : UsedIds) (end cur j : ℕ)
    → cur < num_values
    → IsFree u j
    → dist cur j < fuel
    → search_loop fuel u end cur ≢ stuck
unfolding search_loop
search_ends zero u end cur j h free d = absurd (omega arith)
search_ends (suc fuel) u end cur j h free d = elim (ℕ_discrete j (next_id cur)) [
  | yes e ↦ ground (arith, ap (contains u) e)
  | no ne ↦ ground (arith, search_ends fuel u end (next_id cur) j (omega arith) free (omega arith))
]

-- With every id in use it does not end.
search_stuck :
    (fuel : ℕ) (u : UsedIds) (end cur : ℕ)
    → cur < num_values
    → ((j : ℕ) → 0 < j → j < num_values → contains u j ≡ true)
    → search_loop fuel u end cur ≡ stuck
unfolding search_loop
search_stuck zero u end cur h all = refl
search_stuck (suc fuel) u end cur h all =
    ground (arith, all (next_id cur), search_stuck fuel u end (next_id cur) (omega arith) all)

search-Result :
    (q : QosData)
    → q.next_packet_id < num_values
    → Result q.used_ids q.next_packet_id q.next_packet_id (search q)
unfolding search
search-Result q small =
    search_loop-Result num_values q.used_ids q.next_packet_id q.next_packet_id small small

search_returns :
    (q : QosData) (j : ℕ) → q.next_packet_id < num_values → IsFree q.used_ids j → search q ≢ stuck
unfolding search
search_returns q j small free =
    search_ends num_values q.used_ids q.next_packet_id q.next_packet_id j small free (omega arith)

search_hangs :
    (q : QosData)
    → q.next_packet_id < num_values
    → ((j : ℕ) → 0 < j → j < num_values → contains q.used_ids j ≡ true)
    → search q ≡ stuck
unfolding search
search_hangs q small all =
    search_stuck num_values q.used_ids q.next_packet_id q.next_packet_id small all

abbrev pub AllOthersUsed : QosData → Type 0
AllOthersUsed q =
    (j : ℕ) → 0 < j → j < num_values → j ≢ q.next_packet_id → contains q.used_ids j ≡ true

-- A claim of the id `n`.
pub record Claimed (q : QosData) (n : ℕ) (q' : QosData) : Type 0 where
  pub quota_left : eq_ℤ q.flow_control_quota (pos 0) ≡ false
  pub positive : 0 < n
  pub small : n < num_values
  pub was_free : contains q.used_ids n ≡ false
  pub valid : IsValid q'.used_ids
  pub marked : (j : ℕ) → j < num_values → contains q'.used_ids j ≡ (n == j || contains q.used_ids j)
  pub quota : q'.flow_control_quota ≡ q.flow_control_quota -ℤ pos 1
  pub next : q'.next_packet_id ≡ n
  pub ceiling : q'.flow_control_cealing ≡ q.flow_control_cealing
  pub incoming : q'.incoming_qos2_message_ids ≡ q.incoming_qos2_message_ids
  pub outgoing : q'.outgoing_qos2_message_ids ≡ q.outgoing_qos2_message_ids

-- A refusal: nothing changes, and the quota is 0 or there is no free id but the last one claimed.
abbrev pub Refused : QosData → QosData → Type 0
Refused q q' = (q' ≡ q) × ((eq_ℤ q.flow_control_quota (pos 0) ≡ true) ⊎ AllOthersUsed q)

abbrev pub Next : QosData → Option (QosData × Option ℕ) → Type 0
Next q none = Unit {0}
Next q (some (q', none)) = Refused q q'
Next q (some (q', some n)) = Claimed q n q'

claim-Next :
    (q : QosData) (r : Search)
    → IsValid q.used_ids
    → q.next_packet_id < num_values
    → eq_ℤ q.flow_control_quota (pos 0) ≡ false
    → Result q.used_ids q.next_packet_id q.next_packet_id r
    → Next q (claim q r)
unfolding claim
claim-Next q (found n) v small quota ((p, l, f), ne) =
    let (valid, marked) = insert-Changes n q.used_ids v l in
    record {
      quota_left = quota;
      positive = p;
      small = l;
      was_free = f;
      valid = valid;
      marked = marked;
      quota = refl;
      next = refl;
      ceiling = refl;
      incoming = refl;
      outgoing = refl;
    }
claim-Next q came_round v small quota (free, all) =
    (refl, inr (λ j p l ne. all j p l (omega arith)))
claim-Next q stuck v small quota r = tt

-- `getNextPacketId`, where it returns: an id that was not in use is marked and the quota goes down
-- by one, with the ceiling and the sets unchanged; or nothing changes, and the quota is 0 or all ids but the last one claimed are in use.
pub get_next_packet_id-Next :
    (q : QosData)
    → IsValid q.used_ids
    → q.next_packet_id < num_values
    → Next q (get_next_packet_id q)
unfolding get_next_packet_id
get_next_packet_id-Next q v small = elim (Bool-cases (eq_ℤ q.flow_control_quota (pos 0))) [
  | inl out ↦ rw out (refl, inl out)
  | inr quota ↦ rw quota (claim-Next q (search q) v small quota (search-Result q small))
]

claim-ne-none : (q : QosData) (r : Search) → r ≢ stuck → claim q r ≢ none
unfolding claim
claim-ne-none q (found n) h = λ e. cc
claim-ne-none q came_round h = λ e. cc
claim-ne-none q stuck h = absurd (h refl)

-- `getNextPacketId` returns if some id is free.
pub get_next_packet_id-ne-none :
    (q : QosData) (j : ℕ)
    → q.next_packet_id < num_values
    → 0 < j
    → j < num_values
    → contains q.used_ids j ≡ false
    → get_next_packet_id q ≢ none
unfolding get_next_packet_id
get_next_packet_id-ne-none q j small p l f = elim (Bool-cases (eq_ℤ q.flow_control_quota (pos 0))) [
  | inl out ↦ rw out (λ e. cc)
  | inr quota ↦ rw quota (claim-ne-none q (search q) (search_returns q j small (p, l, f)))
]

Next-Claimed :
    (q : QosData) (j : ℕ) (r : Option (QosData × Option ℕ))
    → 0 < j
    → j < num_values
    → j ≢ q.next_packet_id
    → contains q.used_ids j ≡ false
    → eq_ℤ q.flow_control_quota (pos 0) ≡ false
    → r ≢ none
    → Next q r
    → (q' : QosData) × (n : ℕ) × (r ≡ some (q', some n)) × Claimed q n q'
Next-Claimed q j none p l ne f quota some_r h = absurd (some_r refl)
Next-Claimed q j (some (q', none)) p l ne f quota some_r (same, inl out) = absurd cc
Next-Claimed q j (some (q', none)) p l ne f quota some_r (same, inr all) =
    let used = all j p l ne in absurd cc
Next-Claimed q j (some (q', some n)) p l ne f quota some_r h = (q', n, refl, h)

-- As long as there is quota, and an id is free that is not the last one claimed, `getNextPacketId`
-- returns an id that was free: it is marked, the quota goes down by one, and the ceiling, the other
-- ids and the sets of QoS 2 ids stay.
pub get_next_packet_id-Claimed :
    (q : QosData) (j : ℕ)
    → IsValid q.used_ids
    → q.next_packet_id < num_values
    → 0 < j
    → j < num_values
    → j ≢ q.next_packet_id
    → contains q.used_ids j ≡ false
    → eq_ℤ q.flow_control_quota (pos 0) ≡ false
    → (q' : QosData) × (n : ℕ) × (get_next_packet_id q ≡ some (q', some n)) × Claimed q n q'
get_next_packet_id-Claimed q j v small p l ne f quota =
    Next-Claimed q j (get_next_packet_id q) p l ne f quota
      (get_next_packet_id-ne-none q j small p l f) (get_next_packet_id-Next q v small)

-- If all 65535 ids are in use and the quota is not 0, the loop of `getNextPacketId` never ends: it
-- is not done after any number of rounds.
pub get_next_packet_id_hangs :
    (q : QosData) (rounds : ℕ)
    → q.next_packet_id < num_values
    → ((j : ℕ) → 0 < j → j < num_values → contains q.used_ids j ≡ true)
    → eq_ℤ q.flow_control_quota (pos 0) ≡ false
    → (search_loop rounds q.used_ids q.next_packet_id q.next_packet_id ≡ stuck)
      × (get_next_packet_id q ≡ none)
unfolding get_next_packet_id
get_next_packet_id_hangs q rounds small all quota = (
  search_stuck rounds q.used_ids q.next_packet_id q.next_packet_id small all,
  rw (quota, search_hangs q small all) refl,
)
