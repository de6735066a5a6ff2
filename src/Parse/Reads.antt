-- ===== src/Parse/Reads.antt =====
-- mqttpacket.cpp: where the cursor is after a call that reads.
use flash_mq.Base.{
  ℕ, ◌+◌, ◌≤◌, ◌≡◌, ◌≢◌, refl, subst, ◌∙◌, Bool, true, false, length, ltb, if◌then◌else◌, arith,
  get_or, ◌⊎◌, List, Bool-cases, inl, inr,
}
use flash_mq.Base.Result.{Result, ok, err}
use flash_mq.Packet.{
  Error, protocol_error, string_too_long, stuck, wrong_packet_type, Cursor, read_byte, read_bytes,
  read_two_bytes_to_uint16, read_four_bytes_to_uint32, decode_variable_byte_int_at_pos,
}
use flash_mq.Packet.Reads.{Decoded, decode_variable_byte_int-Decoded}
use flash_mq.Parse.{
  Reader, pure, throw, then_read, ◌>>=◌, throw_if, position, at_end, within_bound,
  read_bytes_to_string, read_string, Settings,
}

-- The errors that the code has.
abbrev pub IsThrown : Error → Type 0
IsThrown e = e ≢ stuck

-- A call that returns leaves the packet as it is and the position at `lo` or behind it, but not
-- behind the end; otherwise it throws.
abbrev pub Within {ℓ} : {A : Type ℓ} → ℕ → List ℕ → Result Error (A × Cursor) → Type 0
Within lo bites (ok (a, q)) = (q.bites ≡ bites) × (lo ≤ q.pos) × (q.pos ≤ length bites)
Within lo bites (err e) = IsThrown e

pub record Reads {ℓ} {A : Type ℓ} (m : Reader A) : Type 0 where
  pub within : (p : Cursor) → p.pos ≤ length p.bites → Within p.pos p.bites (m p)

module _ {ℓ κ} {A : Type ℓ} {B : Type κ} where
  -- What follows a call, from where it ended.
  pub continue :
      (lo : ℕ) (bites : List ℕ) (r : Result Error (A × Cursor)) (k : A → Reader B)
      → Within lo bites r
      → ((a : A) (q : Cursor)
          → q.bites ≡ bites
          → lo ≤ q.pos
          → q.pos ≤ length bites
          → Within lo bites (k a q))
      → Within lo bites (then_read k r)
  continue lo bites (err e) k w h = w
  continue lo bites (ok (a, q)) k (same, after, inside) h = h a q same after inside

module _ {ℓ} {A : Type ℓ} where
  pub further :
      (lo : ℕ) (bites : List ℕ) (q : Cursor) (r : Result Error (A × Cursor))
      → q.bites ≡ bites
      → lo ≤ q.pos
      → Within q.pos q.bites r
      → Within lo bites r
  further lo bites q (err e) same after w = w
  further lo bites q (ok (a, r)) same after (same', after', inside') =
      (same' ∙ same, omega arith, subst (λ l. r.pos ≤ length l) same inside')

module _ {ℓ κ} {A : Type ℓ} {B : Type κ} where
  pub Reads-bind :
      (m : Reader A) (k : A → Reader B) → Reads m → ((a : A) → Reads (k a)) → Reads (m >>= k)
  Reads-bind m k hm hk = record {
    within = λ p inside. continue p.pos p.bites (m p) k (hm.within p inside) (λ a q same after room.
        further p.pos p.bites q (k a q) same after ((hk a).within q (rw (same) room)));
  }

module _ {ℓ} {A : Type ℓ} where
  pub Reads-pure : (a : A) → Reads (pure a)
  Reads-pure a = record { within = λ p inside. (refl, omega arith, inside) }

  pub Reads-throw : (e : Error) → IsThrown e → Reads (throw {A = A} e)
  Reads-throw e h = record { within = λ p inside. h }

  pub Reads-if : (b : Bool) (m n : Reader A) → Reads m → Reads n → Reads (if b then m else n)
  Reads-if true m n hm hn = hm
  Reads-if false m n hm hn = hn

pub Reads-throw_if : (b : Bool) (e : Error) → IsThrown e → Reads (throw_if b e)
Reads-throw_if true e h = record { within = λ p inside. h }
Reads-throw_if false e h = record { within = λ p inside. (refl, omega arith, inside) }

pub protocol_error-IsThrown : (n : ℕ) → IsThrown (protocol_error n)
protocol_error-IsThrown n e = ground arith

pub string_too_long-IsThrown : IsThrown string_too_long
string_too_long-IsThrown e = ground arith

pub wrong_packet_type-IsThrown : IsThrown wrong_packet_type
wrong_packet_type-IsThrown e = ground arith

pub Reads-position : Reads position
Reads-position = record { within = λ p inside. (refl, omega arith, inside) }

pub Reads-at_end : Reads at_end
Reads-at_end = record { within = λ p inside. (refl, omega arith, inside) }

pub Reads-within_bound : (limit : ℕ) → Reads (within_bound limit)
unfolding within_bound
Reads-within_bound limit = record {
  within = λ p inside. elim (Bool-cases (ltb limit p.pos)) [
    | inl over ↦ rw (over) (protocol_error-IsThrown 129)
    | inr fine ↦ rw (fine) (refl, omega arith, inside)
  ];
}

module _ (n : ℕ) where
  pub Reads-read_bytes : Reads (read_bytes n)
  unfolding read_bytes
  Reads-read_bytes = record {
    within = λ p inside. elim (Bool-cases (ltb (length p.bites) (p.pos + n))) [
      | inl short ↦ rw (short) (protocol_error-IsThrown 129)
      | inr room ↦ rw (room) (refl, omega arith, ground arith)
    ];
  }

pub Reads-read_byte : Reads read_byte
unfolding read_byte
Reads-read_byte = record {
  within = λ p inside. elim (Bool-cases (ltb (length p.bites) (p.pos + 1))) [
    | inl short ↦ rw (short) (protocol_error-IsThrown 129)
    | inr room ↦ rw (room) (refl, omega arith, ground arith)
  ];
}

pub Reads-read_two_bytes_to_uint16 : Reads read_two_bytes_to_uint16
unfolding read_two_bytes_to_uint16
Reads-read_two_bytes_to_uint16 = record {
  within = λ p inside. elim (Bool-cases (ltb (length p.bites) (p.pos + 2))) [
    | inl short ↦ rw (short) (protocol_error-IsThrown 129)
    | inr room ↦ rw (room) (refl, omega arith, ground arith)
  ];
}

pub Reads-read_four_bytes_to_uint32 : Reads read_four_bytes_to_uint32
unfolding read_four_bytes_to_uint32
Reads-read_four_bytes_to_uint32 = record {
  within = λ p inside. elim (Bool-cases (ltb (length p.bites) (p.pos + 4))) [
    | inl short ↦ rw (short) (protocol_error-IsThrown 129)
    | inr room ↦ rw (room) (refl, omega arith, ground arith)
  ];
}

Within-Decoded :
    (p : Cursor) (r : Result Error (ℕ × Cursor)) → Decoded p 0 r → Within p.pos p.bites r
Within-Decoded p (err e) d = rw (d) (protocol_error-IsThrown 129)
Within-Decoded p (ok (v, q)) d = (d.4, omega (arith, d.1), d.3)

pub Reads-decode : Reads decode_variable_byte_int_at_pos
Reads-decode = record {
  within = λ p inside. Within-Decoded p _ (decode_variable_byte_int-Decoded p);
}

pub Reads-read_bytes_to_string :
    (max_length : ℕ) (check publish : Bool) (reason : ℕ)
    → Reads (read_bytes_to_string max_length check publish reason)
unfolding read_bytes_to_string
Reads-read_bytes_to_string max_length check publish reason =
    search
      (
        Reads-bind, Reads-read_two_bytes_to_uint16, Reads-throw_if, Reads-read_bytes, Reads-pure,
        protocol_error-IsThrown, string_too_long-IsThrown,
      )
      depth 12

pub Reads-read_string : (s : Settings) → Reads (read_string s)
unfolding read_string
Reads-read_string s = Reads-read_bytes_to_string s.max_string_length true false 129

-- The reads, and what puts them together.
pub ruleset reads = (
  Reads-bind, Reads-pure, Reads-if, Reads-throw_if, Reads-throw, Reads-position, Reads-at_end,
  Reads-read_byte, Reads-read_bytes, Reads-read_two_bytes_to_uint16,
  Reads-read_four_bytes_to_uint32, Reads-decode, Reads-read_bytes_to_string, Reads-read_string,
  protocol_error-IsThrown, wrong_packet_type-IsThrown,
)

-- A byte that is read takes room.
pub read_byte_cases :
    (p : Cursor)
    → (read_byte p ≡ err (protocol_error 129))
      ⊎ ((b : ℕ) × (read_byte p ≡ ok (b, record p { pos = p.pos + 1 }))
          × (p.pos + 1 ≤ length p.bites))
unfolding read_byte
read_byte_cases p = elim (Bool-cases (ltb (length p.bites) (p.pos + 1))) [
  | inl short ↦ inl (rw (short) refl)
  | inr room ↦ inr (get_or p.bites p.pos 0, rw (room) refl, ground arith)
]
