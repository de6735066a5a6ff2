-- ===== src/Framing/Rounds.antt =====
-- mqttpacket.cpp: a round of `bufferToMqttPackets` when more bytes are behind those it looks at.
use Prim.Native.Nat.{bit_and}
use flash_mq.Base.{
  ℕ, zero, suc, ◌+◌, ◌*◌, ◌≤◌, ◌<◌, ◌≡◌, refl, ap, min, true, false, not, ◌&&◌, List, [], ◌∷◌, ◌++◌,
  length, length-append, length-drop, get_or, take, drop, ltb, leb, ◌==◌, Option, none, some, arith,
  Bool-cases, inl, inr, ◌⊎◌,
}
use flash_mq.Base.Result.{Result, ok, err}
use flash_mq.Packet.{Error, Cursor}
use flash_mq.Parse.Header.{Header, Sender, incoming}
use flash_mq.Framing.{
  length_loop, fixed_header, Round, wait, bad, packet, moved, take_packet, with_length, round,
}

get_or-append : (a b : List ℕ) (i : ℕ) → i < length a → get_or (a ++ b) i 0 ≡ get_or a i 0
get_or-append [] b i h = absurd (omega arith)
get_or-append (x ∷ a) b zero h = refl
get_or-append (x ∷ a) b (suc i) h = get_or-append a b i (omega arith)

take-append : (n : ℕ) (a b : List ℕ) → n ≤ length a → take n (a ++ b) ≡ take n a
take-append zero a b h = refl
take-append (suc n) [] b h = absurd (omega arith)
take-append (suc n) (x ∷ a) b h = ap (λ t. x ∷ t) (take-append n a b (omega arith))

drop-append : (n : ℕ) (a b : List ℕ) → n ≤ length a → drop n (a ++ b) ≡ drop n a ++ b
drop-append zero a b h = refl
drop-append (suc n) [] b h = absurd (omega arith)
drop-append (suc n) (x ∷ a) b h = drop-append n a b (omega arith)

-- More bytes change what the loop finds only if it had not enough.
length_loop-append :
    (fuel : ℕ) (a b : List ℕ) (fixed m n : ℕ)
    → (length_loop fuel a fixed m n ≡ ok none)
      ⊎ (length_loop fuel (a ++ b) fixed m n ≡ length_loop fuel a fixed m n)
unfolding length_loop
length_loop-append zero a b fixed m n = inr refl
length_loop-append (suc fuel) a b fixed m n =
    let x = get_or a fixed 0 in
    let more = length_loop-append fuel a b (fixed + 1) (m * 128) (n + bit_and x 127 * m) in
    elim (Bool-cases (ltb 5 (fixed + 1))) [
      | inl over ↦ inr (rw (over) refl)
      | inr fine ↦ elim (Bool-cases (ltb (length a) (fixed + 1))) [
        | inl short ↦ inl (rw (fine, short) refl)
        | inr long ↦
            let long' : ltb (length (a ++ b)) (fixed + 1) ≡ false =
              ground (arith, length-append a b) in
            let e : get_or (a ++ b) fixed 0 ≡ x = get_or-append a b fixed (ground arith) in
            elim (Bool-cases (ltb (128 * 128 * 128 * 128) (m * 128))) [
              | inl big ↦ inr (rw (e, fine, long, long', big) refl)
              | inr small ↦ elim (Bool-cases (bit_and x 128 == 0)) [
                | inl last ↦ inr (rw (e, fine, long, long', small, last) refl)
                | inr next ↦ rw (e, fine, long, long', small, next) more
              ]
            ]
      ]
    ]

-- What a round gives with more bytes behind.
abbrev pub behind : List ℕ → Round → Round
behind b wait = wait
behind b (bad e rest) = bad e (rest ++ b)
behind b (packet p rest) = packet p (rest ++ b)

moved-append :
    (rest b : List ℕ) (r : Result Error (Header × Cursor))
    → moved (rest ++ b) r ≡ behind b (moved rest r)
moved-append rest b (err e) = refl
moved-append rest b (ok p) = refl

take_packet-append :
    (s : Sender) (a b : List ℕ) (fixed n : ℕ)
    → (take_packet s a fixed n ≡ wait)
      ⊎ (take_packet s (a ++ b) fixed n ≡ behind b (take_packet s a fixed n))
unfolding take_packet
take_packet-append s a b fixed n = elim (Bool-cases (not s.authenticated && leb 1048576 n)) [
  | inl random ↦ inr (rw (random) refl)
  | inr fine ↦ elim (Bool-cases (ltb (min s.max_incoming_packet_size 268435455) n)) [
    | inl large ↦ inr (rw (fine, large) refl)
    | inr small ↦ elim (Bool-cases (leb n (length a))) [
      | inr short ↦ inl (rw (fine, small, short) refl)
      | inl there ↦
          let there' : leb n (length (a ++ b)) ≡ true = ground (arith, length-append a b) in
          let within : n ≤ length a = ground arith in
          inr (
            rw (fine, small, there, there', take-append n a b within, drop-append n a b within)
              (moved-append (drop n a) b (incoming (take n a) fixed s)))
    ]
  ]
]

with_length-append :
    (s : Sender) (a b : List ℕ) (r : Result Error (Option (ℕ × ℕ)))
    → (with_length s a r ≡ wait) ⊎ (with_length s (a ++ b) r ≡ behind b (with_length s a r))
with_length-append s a b (err e) = inr refl
with_length-append s a b (ok none) = inl refl
with_length-append s a b (ok (some (fixed, n))) = take_packet-append s a b fixed (n + fixed)

fixed_header-append :
    (a b : List ℕ) → (fixed_header a ≡ ok none) ⊎ (fixed_header (a ++ b) ≡ fixed_header a)
unfolding fixed_header
fixed_header-append a b = length_loop-append 5 a b 1 1 0

pub round-append :
    (s : Sender) (a b : List ℕ) → (round s a ≡ wait) ⊎ (round s (a ++ b) ≡ behind b (round s a))
unfolding round
round-append s a b = elim (Bool-cases (ltb (length a) 2)) [
  | inl short ↦ inl (rw (short) refl)
  | inr enough ↦
      let enough' : ltb (length (a ++ b)) 2 ≡ false = ground (arith, length-append a b) in
      elim (fixed_header-append a b) [
        | inl e ↦ inl (rw (enough, e) refl)
        | inr e ↦ rw (enough, enough', e) (with_length-append s a b (fixed_header a))
      ]
]

-- The fixed header that the loop finds is longer than the one it started with.
abbrev Longer : ℕ → Result Error (Option (ℕ × ℕ)) → Type 0
Longer fixed (err e) = Unit
Longer fixed (ok none) = Unit
Longer fixed (ok (some (fixed', n))) = fixed < fixed'

Longer-more :
    (fixed : ℕ) (r : Result Error (Option (ℕ × ℕ))) → Longer (fixed + 1) r → Longer fixed r
Longer-more fixed (err e) h = tt
Longer-more fixed (ok none) h = tt
Longer-more fixed (ok (some (fixed', n))) h = omega arith

length_loop-Longer :
    (fuel : ℕ) (a : List ℕ) (fixed m n : ℕ) → Longer fixed (length_loop fuel a fixed m n)
unfolding length_loop
length_loop-Longer zero a fixed m n = tt
length_loop-Longer (suc fuel) a fixed m n =
    let x = get_or a fixed 0 in
    let rest : Longer fixed (length_loop fuel a (fixed + 1) (m * 128) (n + bit_and x 127 * m)) =
      Longer-more fixed _
        (length_loop-Longer fuel a (fixed + 1) (m * 128) (n + bit_and x 127 * m)) in
    elim (Bool-cases (ltb 5 (fixed + 1))) [
      | inl over ↦ rw (over) tt
      | inr fine ↦ elim (Bool-cases (ltb (length a) (fixed + 1))) [
        | inl short ↦ rw (fine, short) tt
        | inr long ↦ elim (Bool-cases (ltb (128 * 128 * 128 * 128) (m * 128))) [
          | inl big ↦ rw (fine, long, big) tt
          | inr small ↦ elim (Bool-cases (bit_and x 128 == 0)) [
            | inl last ↦ rw (fine, long, small, last) (omega arith)
            | inr next ↦ rw (fine, long, small, next) rest
          ]
        ]
      ]
    ]

fixed_header-Longer : (a : List ℕ) → Longer 1 (fixed_header a)
unfolding fixed_header
fixed_header-Longer a = length_loop-Longer 5 a 1 1 0

-- A round that takes a packet leaves a shorter buffer.
abbrev pub Shorter : List ℕ → Round → Type 0
Shorter a wait = Unit
Shorter a (bad e rest) = Unit
Shorter a (packet p rest) = length rest < length a

moved-Shorter :
    (a : List ℕ) (n : ℕ) (r : Result Error (Header × Cursor))
    → 0 < n
    → n ≤ length a
    → Shorter a (moved (drop n a) r)
moved-Shorter a n (err e) h g = tt
moved-Shorter a n (ok p) h g = omega (arith, length-drop n a)

take_packet-Shorter :
    (s : Sender) (a : List ℕ) (fixed n : ℕ) → 0 < n → Shorter a (take_packet s a fixed n)
unfolding take_packet
take_packet-Shorter s a fixed n h = elim (Bool-cases (not s.authenticated && leb 1048576 n)) [
  | inl random ↦ rw (random) tt
  | inr fine ↦ elim (Bool-cases (ltb (min s.max_incoming_packet_size 268435455) n)) [
    | inl large ↦ rw (fine, large) tt
    | inr small ↦ elim (Bool-cases (leb n (length a))) [
      | inr short ↦ rw (fine, small, short) tt
      | inl there ↦ rw (fine, small, there) (moved-Shorter a n _ h (ground arith))
    ]
  ]
]

with_length-Shorter :
    (s : Sender) (a : List ℕ) (r : Result Error (Option (ℕ × ℕ)))
    → Longer 1 r
    → Shorter a (with_length s a r)
with_length-Shorter s a (err e) h = tt
with_length-Shorter s a (ok none) h = tt
with_length-Shorter s a (ok (some (fixed, n))) h =
    take_packet-Shorter s a fixed (n + fixed) (omega arith)

pub round-Shorter : (s : Sender) (a : List ℕ) → Shorter a (round s a)
unfolding round
round-Shorter s a = elim (Bool-cases (ltb (length a) 2)) [
  | inl short ↦ rw (short) tt
  | inr enough ↦ rw (enough) (with_length-Shorter s a (fixed_header a) (fixed_header-Longer a))
]
