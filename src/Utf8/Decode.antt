-- ===== src/Utf8/Decode.antt =====
-- utils.h: `isValidUtf8Generic` against the code points of a text.
use flash_mq.Base.{
  ℕ, suc, ◌+◌, ◌-◌, ◌*◌, ◌^◌, ◌<◌, ◌≡◌, refl, sym, ◌∙◌, Bool, true, not, ◌||◌, ◌&&◌, all, some, [],
  ◌∷◌, ◌++◌, length, ltb, leb, ◌==◌, arith, Bool-cases, inl, inr, ltb→lt,
}
use flash_mq.Base.Text.{Text}
use flash_mq.Utf8.{decoder, is_overlong, complete, loop}
use flash_mq.Utf8.Chars.{between}
use flash_mq.Utf8.Rounds.{
  encode, is_allowed, is_byte, after, loop_first, resume, resume-complete, loop_next,
  is_bad_point_lem, not-is_bad_point_1, both,
}

-- What a text that is accepted in the middle of a code point starts with.
pending :
    (topic : Bool) (remain unit point total : ℕ) (s : Text)
    → all is_byte s ≡ true
    → 2 ^ (6 * remain) ≡ unit
    → loop topic (decoder (suc remain) point total) s ≡ true
    → (x : ℕ) × (s' : Text) × (s ≡ x ∷ s')
      × (between 128 192 x ≡ true)
      × (all is_byte s' ≡ true)
      × (resume topic s' (complete (some (decoder remain (point + (x - 128) * unit) total))) ≡ true)
unfolding loop
pending topic remain unit point total [] bytes e h = ground arith
pending topic remain unit point total (x ∷ s) bytes e h =
    let (small, others) = both (is_byte x) (all is_byte s) bytes in
    let next = sym (loop_next topic x remain unit point total s (ltb→lt x 256 small) e) ∙ h in
    let (b, rest) = both (between 128 192 x) _ next in (x, s, refl, b, others, rest)

-- The last byte of a code point of more than one byte, whose value is then `c`.
last_byte :
    (topic : Bool) (total c least : ℕ) (s : Text)
    → c < 2097152
    → 127 < least
    → is_overlong total c ≡ ltb c least
    → ltb 1 total ≡ true
    → resume topic s (complete (some (decoder 0 c total))) ≡ true
    → (leb least c ≡ true) × (is_allowed topic c ≡ true) × (loop topic (decoder 0 0 total) s ≡ true)
last_byte topic total c least s h big e long ok =
    let (good, rest) = both _ _ (sym (resume-complete topic total c s) ∙ ok) in
    let (enough, fine) =
      both _ _ (sym (is_bad_point_lem topic total c least h big e long) ∙ good) in
    (enough, fine, rest)

-- An accepted text starts with the bytes of an allowed code point, and the rest is accepted.
pub record First (topic : Bool) (whole : Text) : Type 0 where
  pub point : ℕ
  pub total : ℕ
  pub rest : Text
  pub fine : is_allowed topic point ≡ true
  pub bytes : all is_byte rest ≡ true
  pub shorter : length rest < length whole
  pub same : encode point ++ rest ≡ whole
  pub accepted : loop topic (decoder 0 0 total) rest ≡ true

encode_two :
    (x y : ℕ)
    → between 192 224 x ≡ true
    → between 128 192 y ≡ true
    → leb 128 ((x - 192) * 64 + (y - 128) * 1) ≡ true
    → ((x - 192) * 64 + (y - 128) * 1 < 2048)
      × (encode ((x - 192) * 64 + (y - 128) * 1) ≡ x ∷ y ∷ [])
encode_two x y bx by enough = ground arith

encode_three :
    (x y z c : ℕ)
    → between 224 240 x ≡ true
    → between 128 192 y ≡ true
    → between 128 192 z ≡ true
    → c ≡ (x - 224) * 4096 + (y - 128) * 64 + (z - 128) * 1
    → leb 2048 c ≡ true
    → (c < 65536) × (encode c ≡ x ∷ y ∷ z ∷ [])
encode_three x y z c bx by bz e enough = ground arith

encode_four :
    (x y z w c : ℕ)
    → between 240 248 x ≡ true
    → between 128 192 y ≡ true
    → between 128 192 z ≡ true
    → between 128 192 w ≡ true
    → c ≡ (x - 240) * 262144 + (y - 128) * 4096 + (z - 128) * 64 + (w - 128) * 1
    → leb 65536 c ≡ true
    → (c < 2097152) × (encode c ≡ x ∷ y ∷ z ∷ w ∷ [])
encode_four x y z w c bx by bz bw e enough = ground arith

module _ (topic : Bool) (x : ℕ) (s : Text) (bytes : all is_byte s ≡ true) where
  First-ascii :
      ltb x 128 ≡ true
      → not (topic && (x == 35 || x == 43)) ≡ true
      → after topic 1 x s ≡ true
      → First topic (x ∷ s)
  First-ascii b guard h =
      let (good, next) = both _ _ h in
      record {
        point = x;
        total = 1;
        rest = s;
        fine = sym (not-is_bad_point_1 topic x (ltb→lt x 128 b)) ∙ rw (guard) good;
        bytes = bytes;
        shorter = omega arith;
        same = rw (b) refl;
        accepted = next;
      }

  First-two :
      between 192 224 x ≡ true
      → loop topic (decoder 1 ((x - 192) * 64) 2) s ≡ true
      → First topic (x ∷ s)
  unfolding is_overlong
  First-two b h =
      let (y, s', e, by, bytes', last) = pending topic 0 1 ((x - 192) * 64) 2 s bytes refl h in
      let c = (x - 192) * 64 + (y - 128) * 1 in
      let small : c < 2097152 = ground arith in
      let (enough, fine, next) =
        last_byte topic 2 c 128 s' small (omega arith) (ground arith) refl last in
      record {
        point = c;
        total = 2;
        rest = s';
        fine = fine;
        bytes = bytes';
        shorter = rw (e) (omega arith);
        same = rw ((encode_two x y b by enough).1, e) refl;
        accepted = next;
      }

  First-three :
      between 224 240 x ≡ true
      → loop topic (decoder 2 ((x - 224) * 4096) 3) s ≡ true
      → First topic (x ∷ s)
  unfolding is_overlong
  First-three b h =
      let p₁ = (x - 224) * 4096 in
      let (y, s₁, e₁, by, bytes₁, h₁) = pending topic 1 64 p₁ 3 s bytes refl h in
      let p₂ = p₁ + (y - 128) * 64 in
      let (z, s₂, e₂, bz, bytes₂, last) = pending topic 0 1 p₂ 3 s₁ bytes₁ refl h₁ in
      let c = p₂ + (z - 128) * 1 in
      let small : c < 2097152 = ground arith in
      let (enough, fine, next) =
        last_byte topic 3 c 2048 s₂ small (omega arith) (ground arith) refl last in
      record {
        point = c;
        total = 3;
        rest = s₂;
        fine = fine;
        bytes = bytes₂;
        shorter = rw (e₁, e₂) (omega arith);
        same = rw ((encode_three x y z c b by bz refl enough).1, e₁, e₂) refl;
        accepted = next;
      }

  First-four :
      between 240 248 x ≡ true
      → loop topic (decoder 3 ((x - 240) * 262144) 4) s ≡ true
      → First topic (x ∷ s)
  unfolding is_overlong
  First-four b h =
      let p₁ = (x - 240) * 262144 in
      let (y, s₁, e₁, by, bytes₁, h₁) = pending topic 2 4096 p₁ 4 s bytes refl h in
      let p₂ = p₁ + (y - 128) * 4096 in
      let (z, s₂, e₂, bz, bytes₂, h₂) = pending topic 1 64 p₂ 4 s₁ bytes₁ refl h₁ in
      let p₃ = p₂ + (z - 128) * 64 in
      let (w, s₃, e₃, bw, bytes₃, last) = pending topic 0 1 p₃ 4 s₂ bytes₂ refl h₂ in
      let c = p₃ + (w - 128) * 1 in
      let small : c < 2097152 = ground arith in
      let (enough, fine, next) =
        last_byte topic 4 c 65536 s₃ small (omega arith) (ground arith) refl last in
      record {
        point = c;
        total = 4;
        rest = s₃;
        fine = fine;
        bytes = bytes₃;
        shorter = rw (e₁, e₂, e₃) (omega arith);
        same = rw ((encode_four x y z w c b by bz bw refl enough).1, e₁, e₂, e₃) refl;
        accepted = next;
      }

pub First-loop :
    (topic : Bool) (x total : ℕ) (s : Text)
    → all is_byte (x ∷ s) ≡ true
    → loop topic (decoder 0 0 total) (x ∷ s) ≡ true
    → First topic (x ∷ s)
First-loop topic x total s all_bytes h =
    let (byte, bytes) = both (is_byte x) (all is_byte s) all_bytes in
    let (guard, rest) = both _ _ (sym (loop_first topic x total s (ltb→lt x 256 byte)) ∙ h) in
    elim (Bool-cases (ltb x 128)) [
      | inl b₁ ↦ First-ascii topic x s bytes b₁ guard (sym (rw (b₁) refl) ∙ rest)
      | inr n₁ ↦ elim (Bool-cases (between 192 224 x)) [
        | inl b₂ ↦ First-two topic x s bytes b₂ (sym (rw (n₁, b₂) refl) ∙ rest)
        | inr n₂ ↦ elim (Bool-cases (between 224 240 x)) [
          | inl b₃ ↦ First-three topic x s bytes b₃ (sym (rw (n₁, n₂, b₃) refl) ∙ rest)
          | inr n₃ ↦
              let (b₄, last) = both (between 240 248 x) _ (sym (rw (n₁, n₂, n₃) refl) ∙ rest) in
              First-four topic x s bytes b₄ last
        ]
      ]
    ]
