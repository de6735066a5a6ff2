-- ===== src/Tests/Buffers.antt =====
-- The circular buffer.
use flash_mq.Base.{
  ◌⊎◌, ◌^◌, ◌*◌, suc, ℕ, ◌+◌, ◌<◌, ◌≡◌, refl, false, min, arith, ◌==◌, if◌then◌else◌, some,
}
use flash_mq.Base.Result.{ok, err}
use flash_mq.CirBuf.{
  too_big, double_capacity, CirBuf, used_bytes, free_space, max_read_size, max_write_size,
  advance_tail, peak_ahead, write_byte,
}
use flash_mq.CirBuf.Bounds.{IsValid, used_bytes-free_space}
use flash_mq.CirBuf.Growth.{double_capacity-Keeps}
use flash_mq.CirBuf.Queue.{Appended, advance_tail-Drops}
use flash_mq.CirBuf.Write.{write_byte-Appended}

-- Five bytes in use of eight, around the end.
abbrev around : CirBuf
around = record { buf = λ i. i; head = 2; tail = 5; size = 8; primed_for_size_reset = false }

around-IsValid : IsValid around
around-IsValid = record {
  power = 3;
  size = refl;
  small = omega arith;
  head = omega arith;
  tail = omega arith;
}

used_bytes-free_space_example :
    (used_bytes around + free_space around + 1 ≡ 8)
    × (max_read_size around ≡ min (used_bytes around) 3)
    × (max_write_size around ≡ min (free_space around) 6)
used_bytes-free_space_example = used_bytes-free_space around around-IsValid

used_of_around : used_bytes around ≡ 5
unfolding used_bytes
used_of_around = refl

room_in_around : free_space around ≡ 2
unfolding free_space
room_in_around = refl

-- The memory of 2 ^ 31 bytes with ten in use, from the start.
abbrev large : CirBuf
large = record around { head = 10; tail = 0; size = 2147483648 }

max_read_of_large : (used_bytes large ≡ 10) × (max_read_size large ≡ 2147483648)
unfolding used_bytes max_read_size
max_read_of_large = (refl, refl)

-- Seven bytes in use of eight: the size is doubled.
abbrev full : CirBuf
full = record around { head = 4 }

full-IsValid : IsValid full
full-IsValid = record {
  power = 3;
  size = refl;
  small = omega arith;
  head = omega arith;
  tail = omega arith;
}

write_byte-Appended_example :
    ((full.size ≡ 2 ^ 31)
      × (free_space full ≡ 0)
      × (write_byte (λ i. 7) 9 full ≡ some (err too_big)))
    ⊎ ((c' : CirBuf) × (write_byte (λ i. 7) 9 full ≡ some (ok c'))
        × Appended 9 (if free_space full == 0 then 16 else 8) full c')
write_byte-Appended_example = write_byte-Appended (λ i. 7) 9 full full-IsValid

no_room_in_full : free_space full ≡ 0
unfolding free_space
no_room_in_full = refl

advance_tail-Drops_example :
    (c' : CirBuf) × (advance_tail 4 around ≡ ok c')
    × IsValid c'
    × (used_bytes c' + 4 ≡ used_bytes around)
    × ((i : ℕ) → i < used_bytes c' → peak_ahead i c' ≡ peak_ahead (4 + i) around)
advance_tail-Drops_example =
    advance_tail-Drops 4 around around-IsValid (omega (arith, used_of_around))

double_capacity-Keeps_example :
    ((2 ^ 31 < around.size * 2 ^ suc 0)
      × (double_capacity (λ i. 7) (2 ^ suc 0) around ≡ err too_big))
    ⊎ ((c' : CirBuf) × (double_capacity (λ i. 7) (2 ^ suc 0) around ≡ ok c')
        × IsValid c'
        × (c'.size ≡ around.size * 2 ^ suc 0)
        × (used_bytes c' ≡ used_bytes around)
        × ((i : ℕ) → i < used_bytes around → peak_ahead i c' ≡ peak_ahead i around))
double_capacity-Keeps_example = double_capacity-Keeps (λ i. 7) 0 around around-IsValid
