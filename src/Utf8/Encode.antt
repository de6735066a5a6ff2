-- ===== src/Utf8/Encode.antt =====
-- utils.h: the texts that `isValidUtf8Generic` accepts.
use flash_mq.Base.{
  ℕ, zero, suc, ◌+◌, ◌-◌, ◌*◌, ◌/◌, ◌%◌, ◌^◌, ◌≤◌, ◌<◌, ◌≡◌, refl, sym, ap, ◌∙◌, ◌↔◌, Bool, true,
  false, not, ◌||◌, ◌&&◌, all, some, List, [], ◌∷◌, ◌++◌, length, ltb, leb, ◌==◌, arith, dec_lt,
}
use flash_mq.Base.Text.{Text}
use flash_mq.Utf8.{decoder, is_overlong, is_bad_point, complete, loop, is_valid_utf8_generic}
use flash_mq.Utf8.Chars.{between}
use flash_mq.Utf8.Decode.{First, First-loop}
use flash_mq.Utf8.Rounds.{
  encode, encode_all, is_allowed, is_byte, loop_first, loop_next, resume, resume-complete,
  is_bad_point_lem, not-is_bad_point_1,
}

-- The allowed code points that a text stands for.
abbrev pub Decoded : Bool → Text → Type 0
Decoded topic s =
    (points : List ℕ) × (all (is_allowed topic) points ≡ true) × (encode_all points ≡ s)

decode :
    (n : ℕ) (topic : Bool) (total : ℕ) (s : Text)
    → length s ≤ n
    → all is_byte s ≡ true
    → loop topic (decoder 0 0 total) s ≡ true
    → Decoded topic s
decode n topic total [] small bytes h = ([], refl, refl)
decode zero topic total (x ∷ s) small bytes h = absurd (omega arith)
decode (suc n) topic total (x ∷ s) small bytes h =
    let f : First topic (x ∷ s) = First-loop topic x total s bytes h in
    let (points, fine, same) =
      decode n topic f.total f.rest (omega (arith, f.shorter)) f.bytes f.accepted in
    (f.point ∷ points, rw (f.fine, fine) refl, rw (same) f.same)

-- The rounds on the bytes of an allowed code point.
module _ (topic : Bool) (total : ℕ) (s : Text) where
  plain : (x : ℕ) → 128 ≤ x → not (topic && (x == 35 || x == 43)) ≡ true
  plain x h = ground arith

  loop-two :
      (y : ℕ)
      → y < 32
      → loop topic (decoder 0 0 total) ((192 + y) ∷ s) ≡ loop topic (decoder 1 (y * 64) 2) s
  loop-two y h =
      let low : ltb (192 + y) 128 ≡ false = ground arith in
      let here : between 192 224 (192 + y) ≡ true = ground arith in
      let v : 192 + y - 192 ≡ y = omega arith in
      rw
        (
          loop_first topic (192 + y) total s (omega arith),
          plain (192 + y) (omega arith),
          low,
          here,
          v,
        )
        refl

  loop-three :
      (y : ℕ)
      → y < 16
      → loop topic (decoder 0 0 total) ((224 + y) ∷ s) ≡ loop topic (decoder 2 (y * 4096) 3) s
  loop-three y h =
      let low : ltb (224 + y) 128 ≡ false = ground arith in
      let not_two : between 192 224 (224 + y) ≡ false = ground arith in
      let here : between 224 240 (224 + y) ≡ true = ground arith in
      let v : 224 + y - 224 ≡ y = omega arith in
      rw
        (
          loop_first topic (224 + y) total s (omega arith),
          plain (224 + y) (omega arith),
          low,
          not_two,
          here,
          v,
        )
        refl

  loop-four :
      (y : ℕ)
      → y < 8
      → loop topic (decoder 0 0 total) ((240 + y) ∷ s) ≡ loop topic (decoder 3 (y * 262144) 4) s
  loop-four y h =
      let low : ltb (240 + y) 128 ≡ false = ground arith in
      let not_two : between 192 224 (240 + y) ≡ false = ground arith in
      let not_three : between 224 240 (240 + y) ≡ false = ground arith in
      let here : between 240 248 (240 + y) ≡ true = ground arith in
      let v : 240 + y - 240 ≡ y = omega arith in
      rw
        (
          loop_first topic (240 + y) total s (omega arith),
          plain (240 + y) (omega arith),
          low,
          not_two,
          not_three,
          here,
          v,
        )
        refl

  loop-follow :
      (y remain unit p p' : ℕ)
      → y < 64
      → 2 ^ (6 * remain) ≡ unit
      → p + y * unit ≡ p'
      → loop topic (decoder (suc remain) p total) ((128 + y) ∷ s)
        ≡ resume topic s (complete (some (decoder remain p' total)))
  loop-follow y remain unit p p' h e sum =
      let here : between 128 192 (128 + y) ≡ true = ground arith in
      let v : 128 + y - 128 ≡ y = omega arith in
      rw (loop_next topic (128 + y) remain unit p total s (omega arith) e, here, v, sum) refl

  -- The tests on a complete code point let an allowed one pass.
  resume-allowed :
      (c least : ℕ)
      → is_allowed topic c ≡ true
      → least ≤ c
      → 127 < least
      → is_overlong total c ≡ ltb c least
      → ltb 1 total ≡ true
      → resume topic s (complete (some (decoder 0 c total))) ≡ loop topic (decoder 0 0 total) s
  resume-allowed c least fine enough big e long =
      let small : c < 2097152 = ground arith in
      let reached : leb least c ≡ true = ground arith in
      rw
        (
          resume-complete topic total c s,
          is_bad_point_lem topic total c least small big e long,
          reached,
          fine,
        )
        refl

module _ (topic : Bool) (total : ℕ) (s : Text) (c : ℕ) (fine : is_allowed topic c ≡ true) where
  encode-one :
      c < 128 → loop topic (decoder 0 0 total) (encode c ++ s) ≡ loop topic (decoder 0 0 1) s
  encode-one h =
      let e : encode c ≡ c ∷ [] = ground arith in
      let low : ltb c 128 ≡ true = ground arith in
      let guard : not (topic && (c == 35 || c == 43)) ≡ true = ground arith in
      let good : not (is_bad_point 1 c) ≡ true =
        sym (rw (guard) refl) ∙ not-is_bad_point_1 topic c h ∙ fine in
      rw (e, loop_first topic c total s (omega arith), guard, low, good) refl

  encode-two :
      ¬ (c < 128)
      → c < 2048
      → loop topic (decoder 0 0 total) (encode c ++ s) ≡ loop topic (decoder 0 0 2) s
  unfolding is_overlong
  encode-two more h =
      let e : encode c ≡ (192 + c / 64) ∷ (128 + c % 64) ∷ [] = ground arith in
      ap (λ t. loop topic (decoder 0 0 total) (t ++ s)) e
      ∙ loop-two topic total ((128 + c % 64) ∷ s) (c / 64) (omega arith)
      ∙ loop-follow topic 2 s (c % 64) 0 1 (c / 64 * 64) c (omega arith) refl (omega arith)
      ∙ resume-allowed topic 2 s c 128 fine (omega arith) (omega arith) (ground arith) refl

  encode-three :
      ¬ (c < 2048)
      → c < 65536
      → loop topic (decoder 0 0 total) (encode c ++ s) ≡ loop topic (decoder 0 0 3) s
  unfolding is_overlong
  encode-three more h =
      let e : encode c ≡ (224 + c / 4096) ∷ (128 + c / 64 % 64) ∷ (128 + c % 64) ∷ [] =
        ground arith in
      ap (λ t. loop topic (decoder 0 0 total) (t ++ s)) e
      ∙ loop-three topic total ((128 + c / 64 % 64) ∷ (128 + c % 64) ∷ s) (c / 4096) (omega arith)
      ∙ loop-follow topic 3 ((128 + c % 64) ∷ s) (c / 64 % 64) 1 64 (c / 4096 * 4096) (c / 64 * 64)
          (omega arith) refl (omega arith)
      ∙ loop-follow topic 3 s (c % 64) 0 1 (c / 64 * 64) c (omega arith) refl (omega arith)
      ∙ resume-allowed topic 3 s c 2048 fine (omega arith) (omega arith) (ground arith) refl

  encode-four :
      ¬ (c < 65536) → loop topic (decoder 0 0 total) (encode c ++ s) ≡ loop topic (decoder 0 0 4) s
  unfolding is_overlong
  encode-four more =
      let small : c < 2097152 = ground arith in
      let e : encode c
          ≡ (240 + c / 262144) ∷ (128 + c / 4096 % 64) ∷ (128 + c / 64 % 64) ∷ (128 + c % 64) ∷ [] =
        ground arith in
      ap (λ t. loop topic (decoder 0 0 total) (t ++ s)) e
      ∙ loop-four topic total ((128 + c / 4096 % 64) ∷ (128 + c / 64 % 64) ∷ (128 + c % 64) ∷ s)
          (c / 262144) (omega arith)
      ∙ loop-follow topic 4 ((128 + c / 64 % 64) ∷ (128 + c % 64) ∷ s) (c / 4096 % 64) 2 4096
          (c / 262144 * 262144) (c / 4096 * 4096) (omega arith) refl (omega arith)
      ∙ loop-follow topic 4 ((128 + c % 64) ∷ s) (c / 64 % 64) 1 64 (c / 4096 * 4096) (c / 64 * 64)
          (omega arith) refl (omega arith)
      ∙ loop-follow topic 4 s (c % 64) 0 1 (c / 64 * 64) c (omega arith) refl (omega arith)
      ∙ resume-allowed topic 4 s c 65536 fine (omega arith) (omega arith) (ground arith) refl

  loop-encode :
      (t : ℕ) × (loop topic (decoder 0 0 total) (encode c ++ s) ≡ loop topic (decoder 0 0 t) s)
  loop-encode = elim (dec_lt c 128) [
    | yes one ↦ (1, encode-one one)
    | no more ↦ elim (dec_lt c 2048) [
      | yes two ↦ (2, encode-two more two)
      | no more' ↦ elim (dec_lt c 65536) [
        | yes three ↦ (3, encode-three more' three)
        | no four ↦ (4, encode-four four)
      ]
    ]
  ]

encode-accepted :
    (topic : Bool) (total : ℕ) (points : List ℕ)
    → all (is_allowed topic) points ≡ true
    → loop topic (decoder 0 0 total) (encode_all points) ≡ true
unfolding loop
encode-accepted topic total [] h = refl
encode-accepted topic total (c ∷ cs) h =
    let fine : is_allowed topic c ≡ true = ground arith in
    let (t, e) = loop-encode topic total (encode_all cs) c fine in
    e ∙ encode-accepted topic t cs (ground arith)

-- On bytes, `isValidUtf8Generic` accepts a text exactly when it is the encoding, each in the
-- shortest form, of code points below 2 ^ 21 that are no control characters, no surrogates and none
-- of the non-characters of the planes up to 16, and, with the check for publish topics, none of
-- `#` and `+`.
pub is_valid_utf8_generic-Decoded :
    (topic : Bool) (s : Text)
    → all is_byte s ≡ true
    → (is_valid_utf8_generic s topic ≡ true) ↔ Decoded topic s
unfolding is_valid_utf8_generic
is_valid_utf8_generic-Decoded topic s bytes = (
  decode (length s) topic 0 s (omega arith) bytes,
  λ (points, fine, same).
      ap (loop topic (decoder 0 0 0)) (sym same) ∙ encode-accepted topic 0 points fine,
)
