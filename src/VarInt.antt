-- ===== src/VarInt.antt =====
-- variablebyteint.cpp: the encoder of MQTT's variable byte integers.
use Prim.Native.Nat.{bit_or}
use flash_mq.Base.{ℕ, zero, suc, ◌/◌, ◌%◌, List, [], ◌∷◌, ltb, if◌then◌else◌}
use flash_mq.Base.Result.{Result, ok, err}

pub data Error : Type 0 where
  too_big : Error

abbrev pub max_value : ℕ
max_value = 268435455

-- The `do` loop of `operator=`; the list is `bytes[0 .. len)`. The array has four places, and so
-- has the loop.
unfoldable pub assign_loop : ℕ → ℕ → List ℕ
assign_loop zero x = []
assign_loop (suc places) x =
    let encoded_byte = x % 128 in
    let rest = assign_loop places (x / 128) in
    if ltb 0 (x / 128) then bit_or encoded_byte 128 ∷ rest else encoded_byte ∷ []

unfoldable pub assign : ℕ → Result Error (List ℕ)
unfolding assign_loop
assign x = if ltb max_value x then err too_big else ok (assign_loop 4 x)
