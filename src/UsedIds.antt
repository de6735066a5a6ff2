-- ===== src/UsedIds.antt =====
-- usedids.cpp: the packet ids in use, a short array that becomes a bit set when it is full.
pub mod Array
pub mod Words
pub mod Members
use Prim.Native.Nat.{bit_and, bit_or}
use flash_mq.Base.{
  ℕ, zero, suc, ◌+◌, ◌-◌, ◌*◌, ◌/◌, ◌%◌, ◌^◌, Bool, true, false, not, ◌&&◌, List, [], ◌∷◌, Option,
  none, some, length, get_or, set, take, replicate, ltb, leb, ◌==◌, if◌then◌else◌,
}

abbrev pub num_values : ℕ
num_values = 65536

abbrev pub words : ℕ
words = num_values / 64

abbrev pub small_max : ℕ
small_max = 8

-- `m_ids`, `m_ids_used`, `m_bits`, `m_bits_used`. An id is a `uint16_t`, and a word has 64 bits.
pub record UsedIds : Type 0 where
  pub ids : List ℕ
  pub ids_used : ℕ
  pub bits : Option (List ℕ)
  pub bits_used : ℕ

unfoldable pub init : UsedIds
unfolding replicate
init = record { ids = replicate small_max 0; ids_used = 0; bits = none; bits_used = 0 }

-- `1ULL << (id % 64)`
abbrev pub bit_mask : ℕ → ℕ
bit_mask id = 2 ^ (id % 64)

-- The functions on the bits get the vector in `m_bits`.
pub bits_is_used : List ℕ → ℕ → Bool
bits_is_used ws id = not (bit_and (get_or ws (id / 64) 0) (bit_mask id) == 0)

-- The vector and `m_bits_used` after the call.
pub bits_mark_used : ℕ → List ℕ × ℕ → List ℕ × ℕ
bits_mark_used id (ws, used) =
    let cur = get_or ws (id / 64) 0 in
    (
      set ws (id / 64) (bit_or cur (bit_mask id)),
      if bit_and cur (bit_mask id) == 0 then used + 1 else used,
    )

pub bits_mark_free : ℕ → List ℕ × ℕ → List ℕ × ℕ
bits_mark_free id (ws, used) =
    let cur = get_or ws (id / 64) 0 in
    (
      set ws (id / 64) (bit_and cur (2 ^ 64 - 1 - bit_mask id)),
      if not (bit_and cur (bit_mask id) == 0) then used - 1 else used,
    )

-- The loop of `ids_is_used`, over the entries and the number of them that are in use.
pub ids_is_used : List ℕ → ℕ → ℕ → Bool
ids_is_used xs zero id = false
ids_is_used [] (suc used) id = false
ids_is_used (x ∷ xs) (suc used) id = if x == id then true else ids_is_used xs used id

pub ids_mark_used : ℕ → UsedIds → UsedIds
unfolding ids_is_used
ids_mark_used id u =
    if ids_is_used u.ids u.ids_used id
    then u
    else record u { ids = set u.ids u.ids_used id; ids_used = u.ids_used + 1 }

-- `memmove(pos, pos + 1, n * sizeof(id))`
pub shift : ℕ → List ℕ → List ℕ
shift zero xs = xs
shift (suc n) [] = []
shift (suc n) (x ∷ []) = x ∷ []
shift (suc n) (x ∷ y ∷ xs) = y ∷ shift n (y ∷ xs)

-- The loop of `ids_mark_free`: the entries after it, and whether one was taken out. At the entry
-- found, `used` entries are left with it, so `tail_len` is one less.
pub free_loop : List ℕ → ℕ → ℕ → List ℕ × Bool
unfolding shift
free_loop xs zero id = (xs, false)
free_loop [] (suc used) id = ([], false)
free_loop (x ∷ xs) (suc used) id =
    let (ys, found) = free_loop xs used id in
    if not (x == id) then (x ∷ ys, found) else (shift used (x ∷ xs), true)

pub ids_mark_free : ℕ → UsedIds → UsedIds
unfolding free_loop
ids_mark_free id u =
    let (ys, found) = free_loop u.ids u.ids_used id in
    record u { ids = ys; ids_used = if found then u.ids_used - 1 else u.ids_used }

-- The operations below branch on `m_bits`, which their helpers get as an argument.
pub contains_in : Option (List ℕ) → UsedIds → ℕ → Bool
unfolding bits_is_used ids_is_used
contains_in (some ws) u id = bits_is_used ws id
contains_in none u id = ids_is_used u.ids u.ids_used id

pub contains : UsedIds → ℕ → Bool
unfolding contains_in
contains u id = contains_in u.bits u id

-- `for (i = 0; i < m_ids_used; i++) bits_mark_used(m_ids.at(i))`
pub mark_all : List ℕ → List ℕ × ℕ → List ℕ × ℕ
unfolding bits_mark_used
mark_all [] b = b
mark_all (x ∷ xs) b = mark_all xs (bits_mark_used x b)

-- The first block of `insert`.
pub convert : Option (List ℕ) → UsedIds → UsedIds
unfolding mark_all
convert (some ws) u = u
convert none u =
    if leb small_max u.ids_used
    then (let (ws, used) = mark_all (take u.ids_used u.ids) (replicate words 0, u.bits_used) in
        record u { ids_used = 0; bits = some ws; bits_used = used })
    else u

-- The second block of `insert`.
pub mark : Option (List ℕ) → ℕ → UsedIds → UsedIds
unfolding bits_mark_used ids_mark_used
mark (some ws) id u =
    let (ws', used) = bits_mark_used id (ws, u.bits_used) in
    record u { bits = some ws'; bits_used = used }
mark none id u = ids_mark_used id u

pub insert : ℕ → UsedIds → UsedIds
unfolding convert mark
insert id u = let u' = convert u.bits u in mark u'.bits id u'

pub erase_in : Option (List ℕ) → ℕ → UsedIds → UsedIds
unfolding bits_mark_free ids_mark_free
erase_in (some ws) id u =
    let (ws', used) = bits_mark_free id (ws, u.bits_used) in
    if used == 0
    then record u { ids_used = 0; bits = none; bits_used = used }
    else record u { bits = some ws'; bits_used = used }
erase_in none id u = ids_mark_free id u

pub erase : ℕ → UsedIds → UsedIds
unfolding erase_in
erase id u = erase_in u.bits id u
