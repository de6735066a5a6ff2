-- ===== src/Framing/Chunks.antt =====
-- mqttpacket.cpp: `bufferToMqttPackets` on bytes that arrive in parts.
use flash_mq.Base.{
  ℕ, zero, suc, ◌+◌, ◌<◌, ◌≡◌, refl, sym, ap, ◌∙◌, List, [], ◌∷◌, ◌++◌, length, length-append,
  Option, none, some, arith, inl, inr, ◌⊎◌,
}
use flash_mq.Packet.{Error, Cursor}
use flash_mq.Parse.Header.{Header, Sender}
use flash_mq.Framing.{
  Round, wait, bad, packet, round, Framed, prepend, loop, buffer_to_mqtt_packets,
}
use flash_mq.Framing.Rounds.{behind, round-append, Shorter, round-Shorter}

-- What the loop makes of a round.
abbrev pub follow : ℕ → Sender → List ℕ → Round → Framed
follow fuel s a wait = record { packets = []; buf = a; thrown = none }
follow fuel s a (bad e rest) = record { packets = []; buf = rest; thrown = some e }
follow fuel s a (packet p rest) = prepend p (loop fuel s rest)

pub loop-follow :
    (fuel : ℕ) (s : Sender) (a : List ℕ) → loop (suc fuel) s a ≡ follow fuel s a (round s a)
unfolding loop
loop-follow fuel s a = go (round s a)
  where
    go :
        (r : Round)
        → (elim r [
          | wait ↦ record { packets = []; buf = a; thrown = none }
          | bad e rest ↦ record { packets = []; buf = rest; thrown = some e }
          | packet p rest ↦ prepend p (loop fuel s rest)
        ])
          ≡ follow fuel s a r
    go wait = refl
    go (bad e rest) = refl
    go (packet p rest) = refl

loop-follow_more :
    (fuel k : ℕ) (s : Sender) (a : List ℕ)
    → loop (suc fuel + k) s a ≡ follow (fuel + k) s a (round s a)
loop-follow_more fuel k s a =
    let e : suc fuel + k ≡ suc (fuel + k) = omega arith in
    ap (λ (n : ℕ). loop n s a) e ∙ loop-follow (fuel + k) s a

same_follow :
    (n m : ℕ) (s : Sender) (a : List ℕ) (r : Round)
    → Shorter a r
    → ((rest : List ℕ) → length rest < length a → loop n s rest ≡ loop m s rest)
    → follow n s a r ≡ follow m s a r
same_follow n m s a wait shorter h = refl
same_follow n m s a (bad e rest) shorter h = refl
same_follow n m s a (packet p rest) shorter h = ap (prepend p) (h rest shorter)

-- Fuel beyond the length of the buffer changes nothing.
pub loop-fuel :
    (n m : ℕ) (s : Sender) (a : List ℕ) → length a < n → length a < m → loop n s a ≡ loop m s a
loop-fuel zero m s a h g = absurd (omega arith)
loop-fuel (suc n) zero s a h g = absurd (omega arith)
loop-fuel (suc n) (suc m) s a h g =
    loop-follow n s a
    ∙ same_follow n m s a (round s a) (round-Shorter s a)
        (λ rest shorter. loop-fuel n m s rest (omega arith) (omega arith))
    ∙ sym (loop-follow m s a)

-- More bytes for a call that has ended: one that threw is not made again.
abbrev pub feed : Sender → Framed → List ℕ → Framed
feed s f b = elim f.thrown [
  | some e ↦ record f { buf = f.buf ++ b }
  | none ↦
      let g = buffer_to_mqtt_packets s (f.buf ++ b) in record g { packets = f.packets ++ g.packets }
]

feed-prepend :
    (s : Sender) (p : Header × Cursor) (f : Framed) (b : List ℕ)
    → feed s (prepend p f) b ≡ prepend p (feed s f b)
feed-prepend s p f b = go f.thrown
  where
    go :
        (o : Option Error)
        → feed s (record { packets = p ∷ f.packets; buf = f.buf; thrown = o }) b
          ≡ prepend p (feed s (record { packets = f.packets; buf = f.buf; thrown = o }) b)
    go none = refl
    go (some e) = refl

loop-append :
    (fuel : ℕ) (s : Sender) (a b : List ℕ)
    → length a < fuel
    → loop (fuel + length b) s (a ++ b) ≡ feed s (loop fuel s a) b
unfolding buffer_to_mqtt_packets
loop-append zero s a b h = absurd (omega arith)
loop-append (suc fuel) s a b h = rw (loop-follow fuel s a) (
    go (round s a) (round-append s a b) (round-Shorter s a)
      (λ rest shorter. loop-append fuel s rest b (omega arith)))
  where
    go :
        (r : Round)
        → (r ≡ wait) ⊎ (round s (a ++ b) ≡ behind b r)
        → Shorter a r
        → ((rest : List ℕ)
            → length rest < length a
            → loop (fuel + length b) s (rest ++ b) ≡ feed s (loop fuel s rest) b)
        → loop (suc fuel + length b) s (a ++ b) ≡ feed s (follow fuel s a r) b
    go wait e shorter ih =
        loop-fuel (suc fuel + length b) (suc (length (a ++ b))) s (a ++ b)
          (omega (arith, length-append a b)) (omega arith)
    go (bad x rest) (inl c) shorter ih = ground arith
    go (bad x rest) (inr e) shorter ih =
        loop-follow_more fuel (length b) s (a ++ b) ∙ ap (follow (fuel + length b) s (a ++ b)) e
    go (packet p rest) (inl c) shorter ih = ground arith
    go (packet p rest) (inr e) shorter ih =
        loop-follow_more fuel (length b) s (a ++ b)
        ∙ ap (follow (fuel + length b) s (a ++ b)) e
        ∙ ap (prepend p) (ih rest shorter)
        ∙ sym (feed-prepend s p (loop fuel s rest) b)

-- How the bytes of a stream are cut into calls makes no difference: one call on all of them gives
-- the packets, the bytes that are left and the exception that a call on the first part and, unless
-- that one threw, another on what it left and the second part give together.
pub buffer_to_mqtt_packets-append :
    (s : Sender) (a b : List ℕ)
    → buffer_to_mqtt_packets s (a ++ b) ≡ feed s (buffer_to_mqtt_packets s a) b
unfolding buffer_to_mqtt_packets
buffer_to_mqtt_packets-append s a b =
    loop-fuel (suc (length (a ++ b))) (suc (length a) + length b) s (a ++ b) (omega arith)
      (omega (arith, length-append a b))
    ∙ loop-append (suc (length a)) s a b (omega arith)
