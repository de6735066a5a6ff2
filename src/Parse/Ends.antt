-- ===== src/Parse/Ends.antt =====
-- mqttpacket.cpp: the loops of the parsers end, and each parser stays in its packet.
use flash_mq.Base.{
  ℕ, zero, suc, ◌+◌, ◌≤◌, ◌<◌, ◌≡◌, refl, ap, length, ltb, arith, Bool-cases, inl, inr,
}
use flash_mq.Base.Result.{Result, ok, err}
use flash_mq.Packet.{Error, Cursor, read_byte, decode_variable_byte_int_at_pos}
use flash_mq.Parse.{Reader, then_read, within_bound, Settings}
use flash_mq.Parse.Reads.{
  Within, Reads, continue, further, Reads-bind, Reads-decode, Reads-position, read_byte_cases,
  protocol_error-IsThrown, reads, IsThrown,
}
use flash_mq.Parse.Properties.{
  properties_loop, read_properties, Counts, count_once, once, repeated, UserProperties,
  add_user_property, read_user_property,
}

module _ {S : Type 0} (property : S → ℕ → Reader S)
    (h : (s : S) (n : ℕ) → Reads (property s n)) where
  properties_loop-Within :
      (fuel limit : ℕ) (s : S) (p : Cursor)
      → p.pos ≤ length p.bites
      → length p.bites < fuel + p.pos
      → Within p.pos p.bites (properties_loop property fuel limit s p)
  unfolding properties_loop within_bound
  properties_loop-Within zero limit s p inside enough = absurd (omega arith)
  properties_loop-Within (suc fuel) limit s p inside enough = elim (Bool-cases (ltb limit p.pos)) [
    | inl over ↦ rw (over) (protocol_error-IsThrown 129)
    | inr fine ↦ elim (Bool-cases (ltb p.pos limit)) [
      | inr done ↦ rw (fine, done) (refl, omega arith, inside)
      | inl more ↦ elim (read_byte_cases p) [
        | inl short ↦ rw (fine, more, short) (protocol_error-IsThrown 129)
        | inr (b, e, room) ↦
            rw (fine, more, e)
              (let q : Cursor = record p { pos = p.pos + 1 } in
                further p.pos p.bites q _ refl (omega arith) (
                  continue q.pos q.bites (property s b q) (properties_loop property fuel limit)
                    ((h s b).within q room)
                    (λ s' q' same after inside'.
                      let len = ap length same in
                      further q.pos q.bites q' _ same after
                        (properties_loop-Within fuel limit s' q' (omega arith) (omega arith)))))
      ]
    ]
  ]

  Reads-properties_loop :
      (limit : ℕ) (s : S) → Reads (λ p. properties_loop property (suc (length p.bites)) limit s p)
  Reads-properties_loop limit s = record {
    within =
        λ p inside. properties_loop-Within (suc (length p.bites)) limit s p inside (omega arith);
  }

  pub Reads-read_properties : (s : S) → Reads (read_properties property s)
  unfolding read_properties
  Reads-read_properties s = search (reads, Reads-properties_loop) depth 8

pub Reads-count_once : (i : ℕ) (pcounts : Counts) → Reads (count_once i pcounts)
unfolding count_once
Reads-count_once i pcounts = search (reads) depth 8

pub Reads-read_user_property :
    (settings : Settings) (ps : UserProperties) → Reads (read_user_property settings ps)
unfolding read_user_property add_user_property
Reads-read_user_property settings ps = search (reads) depth 12

module _ {D : Type 0} where
  pub Reads-once : (i : ℕ) (pcounts : Counts) (m : Reader D) → Reads m → Reads (once i pcounts m)
  Reads-once i pcounts m h = search (reads, Reads-count_once) depth 8

  pub Reads-repeated : (pcounts : Counts) (m : Reader D) → Reads m → Reads (repeated pcounts m)
  Reads-repeated pcounts m h = search (reads) depth 8

pub ruleset properties =
    (reads, Reads-once, Reads-repeated, Reads-read_user_property, Reads-read_properties)

-- Where the properties of the packet at `p` end.
abbrev pub Ended : {S : Type 0} → Cursor → Result Error (S × Cursor) → Type 0
Ended p (err e) = Unit
Ended p (ok (s, q)) =
    (proplen : ℕ) × (start : Cursor) × (decode_variable_byte_int_at_pos p ≡ ok (proplen, start))
    × (q.pos ≡ start.pos + proplen)

abbrev AtLimit : {S : Type 0} → ℕ → Result Error (S × Cursor) → Type 0
AtLimit limit (err e) = Unit
AtLimit limit (ok (s, q)) = q.pos ≡ limit

AtLimit-then :
    {A S : Type 0} (limit : ℕ) (r : Result Error (A × Cursor)) (k : A → Reader S)
    → ((a : A) (q : Cursor) → AtLimit limit (k a q))
    → AtLimit limit (then_read k r)
AtLimit-then limit (err e) k h = tt
AtLimit-then limit (ok (a, q)) k h = h a q

Ended-AtLimit :
    {S : Type 0} (p : Cursor) (proplen : ℕ) (start : Cursor) (r : Result Error (S × Cursor))
    → decode_variable_byte_int_at_pos p ≡ ok (proplen, start)
    → AtLimit (start.pos + proplen) r
    → Ended p r
Ended-AtLimit p proplen start (err e) d h = tt
Ended-AtLimit p proplen start (ok (s, q)) d h = (proplen, start, d, h)

Ended-then :
    {S : Type 0} (p : Cursor) (r : Result Error (ℕ × Cursor))
    → decode_variable_byte_int_at_pos p ≡ r
    → (k : ℕ → Reader S)
    → ((proplen : ℕ) (start : Cursor) → AtLimit (start.pos + proplen) (k proplen start))
    → Ended p (then_read k r)
Ended-then p (err e) d k h = tt
Ended-then p (ok (proplen, start)) d k h =
    Ended-AtLimit p proplen start (k proplen start) d (h proplen start)

module _ {S : Type 0} (property : S → ℕ → Reader S) where
  properties_loop-AtLimit :
      (fuel limit : ℕ) (s : S) (p : Cursor)
      → AtLimit limit (properties_loop property fuel limit s p)
  unfolding properties_loop within_bound
  properties_loop-AtLimit zero limit s p = tt
  properties_loop-AtLimit (suc fuel) limit s p = elim (Bool-cases (ltb limit p.pos)) [
    | inl over ↦ rw (over) tt
    | inr fine ↦ elim (Bool-cases (ltb p.pos limit)) [
      | inr done ↦ rw (fine, done) (ground arith)
      | inl more ↦
          rw (fine, more)
            (AtLimit-then limit (read_byte p) _
              (λ b q. AtLimit-then limit (property s b q) _ (properties_loop-AtLimit fuel limit)))
    ]
  ]

  -- The loop over the properties of a packet, whatever its cases do, returns only where the length
  -- that the packet announces says that they end: no property reaches behind it, and none is left.
  pub read_properties-Ended : (s : S) (p : Cursor) → Ended p (read_properties property s p)
  unfolding read_properties
  read_properties-Ended s p =
      Ended-then p (decode_variable_byte_int_at_pos p) refl _
        (λ proplen q. properties_loop-AtLimit (suc (length q.bites)) (q.pos + proplen) s q)
