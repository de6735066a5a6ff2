-- ===== src/Framing/Wire.antt =====
-- mqttpacket.cpp: `bufferToMqttPackets` on what `readIntoBuf` writes.
use Prim.Native.Nat.{bit_and}
use flash_mq.Base.{
  ℕ, zero, suc, ◌+◌, ◌*◌, ◌≤◌, ◌<◌, ◌≡◌, refl, sym, ap, ◌∙◌, min, true, false, not, ◌&&◌, List, [],
  ◌∷◌, ◌++◌, length, length-append, append_assoc, get_or, take, drop, ltb, leb, ◌==◌, Option, some,
  arith, Bool-cases, inl, inr, ◌⊎◌,
}
use flash_mq.Base.Result.{Result, ok, err, ◌>>=◌}
use flash_mq.VarInt
use flash_mq.VarInt.{max_value}
use flash_mq.Packet.{Error, Cursor, decode_loop, decode_variable_byte_int_at_pos}
use flash_mq.Packet.RoundTrip.{decode-assign}
use flash_mq.Parse.Header.{Header, Sender, incoming}
use flash_mq.Framing.{
  length_loop, fixed_header, moved, take_packet, round, Framed, prepend, buffer_to_mqtt_packets,
}
use flash_mq.Framing.Chunks.{follow, loop-follow, loop-fuel}
use flash_mq.Build.{Outgoing, read_into_buf}

-- 128 to the number of rounds that are left.
abbrev cap : ℕ → ℕ
cap zero = 1
cap (suc k) = 128 * cap k

cap_le : (m k : ℕ) → m * cap k ≡ 34359738368 → m * 128 ≤ 268435456 → 1 < k
cap_le m zero e h = absurd (omega arith)
cap_le m (suc zero) e h = absurd (omega arith)
cap_le m (suc (suc k)) e h = omega arith

abbrev found : Result Error (ℕ × Cursor) → Result Error (Option (ℕ × ℕ))
found (err e) = err e
found (ok (v, q)) = ok (some (q.pos, v))

-- Where the parser of a variable byte integer gets a value, the loop over the buffer does.
length_loop-decode :
    (fuel fixed m v v' : ℕ) (buf : List ℕ) (q : Cursor)
    → fixed + fuel ≡ 6
    → m * cap fuel ≡ 34359738368
    → decode_loop fuel m v (record { bites = buf; pos = fixed }) ≡ ok (v', q)
    → length_loop fuel buf fixed m v ≡ ok (some (q.pos, v'))
unfolding length_loop decode_loop
length_loop-decode zero fixed m v v' buf q sum e h = ground arith
length_loop-decode (suc fuel) fixed m v v' buf q sum e h =
    let x = get_or buf fixed 0 in
    let value = v + bit_and x 127 * m in
    elim (Bool-cases (leb (length buf) fixed)) [
      | inl short ↦ ground (arith, rw (short) at h)
      | inr long ↦ elim (Bool-cases (ltb (128 * 128 * 128 * 128) (m * 128))) [
        | inl big ↦ ground (arith, rw (long, big) at h)
        | inr small ↦
            let more : 1 < suc fuel = cap_le m (suc fuel) e (ground arith) in
            let fine : ltb 5 (fixed + 1) ≡ false = ground arith in
            let there : ltb (length buf) (fixed + 1) ≡ false = ground arith in
            let weight : m * 128 * cap fuel ≡ 34359738368 = omega (arith, e) in
            elim (Bool-cases (bit_and x 128 == 0)) [
              | inl last ↦
                  let h' = rw (long, small, last) at h in
                  rw (fine, there, small, last) (ap found h')
              | inr next ↦
                  rw (fine, there, small, next)
                    (length_loop-decode fuel (fixed + 1) (m * 128) value v' buf q (omega arith)
                      weight (rw (long, small, next) at h))
            ]
      ]
    ]

take-whole : (w rest : List ℕ) → take (length w) (w ++ rest) ≡ w
take-whole [] rest = refl
take-whole (x ∷ w) rest = ap (λ t. x ∷ t) (take-whole w rest)

drop-whole : (w rest : List ℕ) → drop (length w) (w ++ rest) ≡ rest
drop-whole [] rest = refl
drop-whole (x ∷ w) rest = drop-whole w rest

drop-bytes :
    (first : ℕ) (bytes body : List ℕ) → drop (1 + length bytes) (first ∷ bytes ++ body) ≡ body
drop-bytes first bytes body =
    let n : 1 + length bytes ≡ suc (length bytes) = omega arith in
    ap (λ (k : ℕ). drop k (first ∷ bytes ++ body)) n ∙ drop-whole bytes body

-- What the call makes of the bytes of one packet.
abbrev pub taken : Sender → List ℕ → Result Error (Header × Cursor) → Framed
taken s rest (err e) = record { packets = []; buf = rest; thrown = some e }
taken s rest (ok p) = prepend p (buffer_to_mqtt_packets s rest)

-- The limits that the reader of a packet of `n` bytes checks.
abbrev pub Admits : Sender → ℕ → Type 0
Admits s n =
    (n ≤ s.max_incoming_packet_size) × (n ≤ max_value) × ((s.authenticated ≡ true) ⊎ (n < 1048576))

take_packet-whole :
    (s : Sender) (w rest : List ℕ) (fixed : ℕ)
    → Admits s (length w)
    → take_packet s (w ++ rest) fixed (length w) ≡ moved rest (incoming w fixed s)
unfolding take_packet
take_packet-whole s w rest fixed (limit, size, known) =
    let fine : not s.authenticated && leb 1048576 (length w) ≡ false = elim known [
      | inl a ↦ rw (a) refl
      | inr n ↦ ground arith
    ] in
    let small : ltb (min s.max_incoming_packet_size 268435455) (length w) ≡ false = ground arith in
    let there : leb (length w) (length (w ++ rest)) ≡ true = ground (arith, length-append w rest) in
    rw (fine, small, there, take-whole w rest, drop-whole w rest) refl

fixed_header-decode :
    (v : ℕ) (buf : List ℕ) (q : Cursor)
    → decode_variable_byte_int_at_pos (record { bites = buf; pos = 1 }) ≡ ok (v, q)
    → fixed_header buf ≡ ok (some (q.pos, v))
unfolding fixed_header decode_variable_byte_int_at_pos
fixed_header-decode v buf q h = length_loop-decode 5 1 1 0 v buf q refl refl h

fixed_header-assign :
    (first : ℕ) (bytes body rest : List ℕ)
    → VarInt.assign (length body) ≡ ok bytes
    → (fixed_header (first ∷ bytes ++ (body ++ rest)) ≡ ok (some (1 + length bytes, length body)))
      × (1 ≤ length bytes)
fixed_header-assign first bytes body rest e =
    elim (decode-assign (length body) (first ∷ []) (body ++ rest)) [
      | inl (big, refused) ↦ ground (arith, e, refused)
      | inr (bytes', e', _, low, _, decoded) ↦
          let same : bytes' ≡ bytes = ground (arith, e, e') in
          let decoded' = rw (same) at decoded in
          let n : suc (length bytes) ≡ 1 + length bytes = omega arith in
          (
            fixed_header-decode (length body) (first ∷ bytes ++ (body ++ rest)) _ decoded'
                ∙ ap (λ (k : ℕ). ok (some (k, length body))) n,
            rw (sym same) low,
          )
    ]

written_bytes :
    (o : Outgoing) (w : List ℕ)
    → o.fixed_header_length ≡ 0
    → read_into_buf o ≡ ok w
    → (bytes : List ℕ) × (VarInt.assign (length o.bites) ≡ ok bytes)
      × (w ≡ o.first_byte ∷ bytes ++ o.bites)
unfolding read_into_buf
written_bytes o w bare h = go (VarInt.assign (length o.bites)) refl (rw (bare) at h)
  where
    go :
        (r : Result VarInt.Error (List ℕ))
        → VarInt.assign (length o.bites) ≡ r
        → (r >>= (λ remaining_length. ok (o.first_byte ∷ remaining_length ++ o.bites))) ≡ ok w
        → (bytes : List ℕ) × (VarInt.assign (length o.bites) ≡ ok bytes)
          × (w ≡ o.first_byte ∷ bytes ++ o.bites)
    go (err e) a h = ground arith
    go (ok bytes) a h = (bytes, a, ground arith)

follow-moved :
    (n : ℕ) (s : Sender) (a rest : List ℕ) (r : Result Error (Header × Cursor))
    → length rest < n
    → follow n s a (moved rest r) ≡ taken s rest r
unfolding buffer_to_mqtt_packets
follow-moved n s a rest (err e) h = refl
follow-moved n s a rest (ok p) h =
    ap (prepend p) (loop-fuel n (suc (length rest)) s rest h (omega arith))

round-whole :
    (s : Sender) (first : ℕ) (bytes body rest : List ℕ)
    → VarInt.assign (length body) ≡ ok bytes
    → Admits s (length (first ∷ bytes ++ body))
    → round s ((first ∷ bytes ++ body) ++ rest)
      ≡ moved rest (incoming (first ∷ bytes ++ body) (1 + length bytes) s)
unfolding round
round-whole s first bytes body rest e admits =
    let w = first ∷ bytes ++ body in
    let (header, low) = fixed_header-assign first bytes body rest e in
    let header' = rw (sym (append_assoc bytes body rest)) at header in
    let long : ltb (length (w ++ rest)) 2 ≡ false =
      ground (arith, length-append w rest, length-append bytes body) in
    let n : length body + (1 + length bytes) ≡ length w = omega (arith, length-append bytes body) in
    rw (long, header', n) (take_packet-whole s w rest (1 + length bytes) admits)

-- Any packet without a fixed header of its own, written out by `readIntoBuf` in front of other
-- bytes, is what the reader takes first, if the reader admits its size: exactly its bytes, with the
-- length of the fixed header that was written; then it goes on with the other bytes, or stops with
-- the exception that the packet's own checks throw.
pub buffer_to_mqtt_packets-read_into_buf :
    (s : Sender) (o : Outgoing) (w rest : List ℕ)
    → o.fixed_header_length ≡ 0
    → read_into_buf o ≡ ok w
    → Admits s (length w)
    → (fixed : ℕ) × (fixed + length o.bites ≡ length w)
      × (drop fixed w ≡ o.bites)
      × (buffer_to_mqtt_packets s (w ++ rest) ≡ taken s rest (incoming w fixed s))
unfolding buffer_to_mqtt_packets
buffer_to_mqtt_packets-read_into_buf s o w rest bare written admits =
    let (bytes, e, same) = written_bytes o w bare written in
    let whole = o.first_byte ∷ bytes ++ o.bites in
    let admits' = rw (same) at admits in
    let read : buffer_to_mqtt_packets s (whole ++ rest)
        ≡ taken s rest (incoming whole (1 + length bytes) s) =
      rw
        (
          loop-follow (length (whole ++ rest)) s (whole ++ rest),
          round-whole s o.first_byte bytes o.bites rest e admits',
        )
        (follow-moved (length (whole ++ rest)) s (whole ++ rest) rest _
          (omega (arith, length-append whole rest))) in
    (
      1 + length bytes,
      rw (same) (omega (arith, length-append bytes o.bites)),
      rw (same) (drop-bytes o.first_byte bytes o.bites),
      rw (same) read,
    )
