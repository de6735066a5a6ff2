-- ===== src/Utf8/Rounds.antt =====
-- utils.h: the bytes of a code point, and the rounds of the loop over them.
use flash_mq.Base.{
  ℕ, suc, ◌+◌, ◌-◌, ◌*◌, ◌/◌, ◌%◌, ◌^◌, ◌<◌, ◌≡◌, refl, Bool, true, false, not, ◌||◌, ◌&&◌, Option,
  none, some, List, [], ◌∷◌, ◌++◌, ltb, leb, ◌==◌, if◌then◌else◌, arith, Bool-cases, inl, inr,
}
use flash_mq.Base.Text.{Text}
use flash_mq.Utf8.{Decoder, decoder, is_overlong, is_bad_point, complete, step, loop}
use flash_mq.Utf8.Chars.{between, lead_lem, follow_lem, no_character, is_bad_long_lem}

-- The bytes of a code point.
abbrev pub encode : ℕ → Text
encode c =
    if ltb c 128
    then c ∷ []
    else if ltb c 2048
    then (192 + c / 64) ∷ (128 + c % 64) ∷ []
    else if ltb c 65536
    then (224 + c / 4096) ∷ (128 + c / 64 % 64) ∷ (128 + c % 64) ∷ []
    else (240 + c / 262144) ∷ (128 + c / 4096 % 64) ∷ (128 + c / 64 % 64) ∷ (128 + c % 64) ∷ []

abbrev pub encode_all : List ℕ → Text
encode_all [] = []
encode_all (c ∷ cs) = encode c ++ encode_all cs

-- A code point that is neither a control character nor one of those of `no_character`, and, in a
-- topic, no wildcard.
abbrev pub is_allowed : Bool → ℕ → Bool
is_allowed topic c =
    ltb c 2097152
    && not (leb c 31 || between 127 160 c || no_character c)
    && not (topic && (c == 35 || c == 43))

abbrev pub is_byte : ℕ → Bool
is_byte x = ltb x 256

-- The rounds on a code point's bytes.
abbrev pub after : Bool → ℕ → ℕ → Text → Bool
after topic total c s = not (is_bad_point total c) && loop topic (decoder 0 0 total) s

pub loop_first :
    (topic : Bool) (x total : ℕ) (s : Text)
    → x < 256
    → loop topic (decoder 0 0 total) (x ∷ s) ≡ (
        not (topic && (x == 35 || x == 43))
        && (if ltb x 128
            then after topic 1 x s
            else if between 192 224 x
            then loop topic (decoder 1 ((x - 192) * 64) 2) s
            else if between 224 240 x
            then loop topic (decoder 2 ((x - 224) * 4096) 3) s
            else between 240 248 x && loop topic (decoder 3 ((x - 240) * 262144) 4) s))
unfolding loop step
loop_first topic x total s h = rw (loop, step, lead_lem x h) (ground arith)

abbrev pub resume : Bool → Text → Option Decoder → Bool
resume topic s none = false
resume topic s (some d) = loop topic d s

pub resume-complete :
    (topic : Bool) (total c : ℕ) (s : Text)
    → resume topic s (complete (some (decoder 0 c total))) ≡ after topic total c s
resume-complete topic total c s = elim (Bool-cases (is_bad_point total c)) [
  | inl bad ↦ rw (bad) refl
  | inr good ↦ rw (good) refl
]

-- A byte after the first one: the last, or one with more to follow.
pub loop_next :
    (topic : Bool) (x remain unit point total : ℕ) (s : Text)
    → x < 256
    → 2 ^ (6 * remain) ≡ unit
    → loop topic (decoder (suc remain) point total) (x ∷ s) ≡ (
        between 128 192 x
        && resume topic s (complete (some (decoder remain (point + (x - 128) * unit) total))))
unfolding loop step
loop_next topic x remain unit point total s h e =
    let more : (suc remain == 0) ≡ false = ground arith in
    let plain : between 128 192 x ≡ true → (topic && (x == 35 || x == 43)) ≡ false =
      λ b. ground arith in
    elim (Bool-cases (between 128 192 x)) [
      | inl b ↦ rw (loop, step, more, follow_lem x remain unit point total h e, b, plain b) refl
      | inr b ↦ elim (Bool-cases (topic && (x == 35 || x == 43))) [
        | inl t ↦ rw (loop, step, more, follow_lem x remain unit point total h e, b, t) refl
        | inr t ↦ rw (loop, step, more, follow_lem x remain unit point total h e, b, t) refl
      ]
    ]

-- What the tests on a code point of more than one byte mean.
pub is_bad_point_lem :
    (topic : Bool) (total c least : ℕ)
    → c < 2097152
    → 127 < least
    → is_overlong total c ≡ ltb c least
    → ltb 1 total ≡ true
    → not (is_bad_point total c) ≡ (leb least c && is_allowed topic c)
unfolding is_bad_point
is_bad_point_lem topic total c least h big e long = rw (e, long, is_bad_long_lem c h) (ground arith)

pub not-is_bad_point_1 :
    (topic : Bool) (c : ℕ)
    → c < 128
    → (not (topic && (c == 35 || c == 43)) && not (is_bad_point 1 c)) ≡ is_allowed topic c
unfolding is_bad_point is_overlong
not-is_bad_point_1 topic c h = ground arith

pub both : (a b : Bool) → a && b ≡ true → (a ≡ true) × (b ≡ true)
both true b h = (refl, h)
both false b h = ground arith
