-- ===== src/Tests/Ids.antt =====
-- Packet ids and flow control.
use flash_mq.Base.{ℕ, zero, suc, ◌≤◌, ◌<◌, ◌≡◌, refl, true, false, none, some, arith}
use flash_mq.UsedIds
use flash_mq.UsedIds.{UsedIds, contains, num_values}
use flash_mq.UsedIds.Members.{IsValid, Changes, insert-Changes, erase-Changes, init-IsValid}
use flash_mq.QosData
use flash_mq.QosData.{QosData, get_next_packet_id, search_loop, eq_ℤ, stuck}
use flash_mq.QosData.NextId.{Claimed, get_next_packet_id-Claimed, get_next_packet_id_hangs}
use flash_mq.QosData.Flow.{Inv, Step, Reach, Reach-init-Inv}

insert-Changes_example : Changes true 7 UsedIds.init (UsedIds.insert 7 UsedIds.init)
insert-Changes_example = insert-Changes 7 UsedIds.init init-IsValid.0 (omega arith)

erase-Changes_example :
    Changes false 7
      (UsedIds.insert 7 UsedIds.init)
      (UsedIds.erase 7 (UsedIds.insert 7 UsedIds.init))
erase-Changes_example =
    erase-Changes 7 (UsedIds.insert 7 UsedIds.init) insert-Changes_example.0 (omega arith)

abbrev start : QosData
start = QosData.init 2

one_free : contains start.used_ids 5 ≡ false
unfolding QosData.init
one_free = init-IsValid.1 5

start-IsValid : IsValid start.used_ids
unfolding QosData.init
start-IsValid = init-IsValid.0

get_next_packet_id-Claimed_example :
    (q' : QosData) × (n : ℕ) × (get_next_packet_id start ≡ some (q', some n)) × Claimed start n q'
unfolding QosData.init
get_next_packet_id-Claimed_example =
    get_next_packet_id-Claimed start 5 start-IsValid (omega arith) (omega arith) (omega arith)
      (omega arith) one_free refl

-- The ids 1 to `n` in use.
fill : ℕ → UsedIds
fill zero = UsedIds.init
fill (suc n) = UsedIds.insert (suc n) (fill n)

fill_lem :
    (n : ℕ)
    → n < num_values
    → IsValid (fill n) × ((j : ℕ) → 0 < j → j ≤ n → contains (fill n) j ≡ true)
unfolding fill
fill_lem zero h = (init-IsValid.0, λ j p l. absurd (omega arith))
fill_lem (suc n) h =
    let (valid, all) = fill_lem n (omega arith) in
    let (valid', reads) = insert-Changes (suc n) (fill n) valid h in
    (valid', λ j p l. ground (arith, reads j, all j))

abbrev full : QosData
full = record start { used_ids = fill 65535 }

get_next_packet_id_hangs_example :
    (search_loop 100000 full.used_ids full.next_packet_id full.next_packet_id ≡ stuck)
    × (get_next_packet_id full ≡ none)
unfolding QosData.init
get_next_packet_id_hangs_example =
    get_next_packet_id_hangs full 100000 (omega arith)
      (λ j p l. (fill_lem 65535 (omega arith)).1 j p (omega arith)) refl

Reach-init-Inv_example :
    Inv (QosData.resend false 9 (QosData.increase_flow_control_quota 9 start)).0
Reach-init-Inv_example = Reach-init-Inv 2 (omega arith) (
    Reach.after (Reach.after Reach.here (Step.increases 9 (omega arith)))
      (Step.resends false 9 (omega arith)))
