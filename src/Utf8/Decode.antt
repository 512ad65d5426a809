-- ===== src/Utf8/Decode.antt =====
-- Decoding what `encode` gives.
use tasknexus_client_agent.Prelude.{
  ℕ, suc, ◌+◌, ◌-◌, ◌*◌, ◌/◌, ◌%◌, ◌≤◌, ◌<◌, some, [], ◌∷◌, ◌++◌, ◌≡◌, refl, ap, ◌∙◌, inl, inr,
  if◌then◌else◌, ltb, eqb, arith, Bool-cases,
}
use tasknexus_client_agent.Text.{Text}
use tasknexus_client_agent.Utf8.{
  Bytes, IsScalar, AllScalar, encode_char, encode, Mode, start, within, char, on, continuation,
  read, cons?, from_utf8_in, from_utf8,
}

read_within :
    (more value low high b : ℕ)
    → low ≤ b
    → b ≤ high
    → read (within more value low high) b ≡ continuation more (value * 64 + (b - 0x80))
unfolding read
read_within more value low high b h k = ground arith

read-one : (c : ℕ) → c < 0x80 → read start c ≡ char c
unfolding read
read-one c h = ground arith

pub read-two : (x : ℕ) → 2 ≤ x → x < 32 → read start (0xc0 + x) ≡ on (within 0 x 0x80 0xbf)
unfolding read
read-two x h k = ground arith

-- The ranges that keep out overlong forms, surrogates and what lies above the last scalar value.
abbrev pub low3 : ℕ → ℕ
low3 x = if eqb x 0 then 0xa0 else 0x80

abbrev pub high3 : ℕ → ℕ
high3 x = if eqb x 13 then 0x9f else 0xbf

abbrev pub low4 : ℕ → ℕ
low4 x = if eqb x 0 then 0x90 else 0x80

abbrev pub high4 : ℕ → ℕ
high4 x = if eqb x 4 then 0x8f else 0xbf

pub read-three : (x : ℕ) → x < 16 → read start (0xe0 + x) ≡ on (within 1 x (low3 x) (high3 x))
unfolding read
read-three x h = ground arith

pub read-four : (x : ℕ) → x < 5 → read start (0xf0 + x) ≡ on (within 2 x (low4 x) (high4 x))
unfolding read
read-four x h = ground arith

read-last :
    (value low high b : ℕ)
    → low ≤ b
    → b ≤ high
    → read (within 0 value low high) b ≡ char (value * 64 + (b - 0x80))
unfolding read
read-last value low high b h k = ground arith

pub read-more :
    (more value low high b : ℕ)
    → low ≤ b
    → b ≤ high
    → read (within (suc more) value low high) b
      ≡ on (within more (value * 64 + (b - 0x80)) 0x80 0xbf)
unfolding read
read-more more value low high b h k = ground arith

pub step-char :
    (m : Mode) (b c : ℕ) (l : Bytes)
    → read m b ≡ char c
    → from_utf8_in m (b ∷ l) ≡ cons? c (from_utf8_in start l)
unfolding from_utf8_in
step-char start b c l h = ground (arith, h)
step-char (within n v x y) b c l h = ground (arith, h)

pub step-on :
    (m m' : Mode) (b : ℕ) (l : Bytes)
    → read m b ≡ on m'
    → from_utf8_in m (b ∷ l) ≡ from_utf8_in m' l
unfolding from_utf8_in
step-on start m' b l h = ground (arith, h)
step-on (within n v x y) m' b l h = ground (arith, h)

two_bytes :
    (c : ℕ) (l : Bytes)
    → 0x80 ≤ c
    → c < 0x800
    → from_utf8_in start ((0xc0 + c / 64) ∷ (0x80 + c % 64) ∷ l) ≡ cons? c (from_utf8_in start l)
two_bytes c l h k =
    step-on start _ (0xc0 + c / 64) _ (read-two (c / 64) (omega arith) (omega arith))
    ∙ step-char _ (0x80 + c % 64) _ l
        (read-last (c / 64) 0x80 0xbf (0x80 + c % 64) (omega arith) (omega arith))
    ∙ ap (λ d. cons? d (from_utf8_in start l)) (omega arith)

three_bytes :
    (c : ℕ) (l : Bytes)
    → 0x800 ≤ c
    → c < 0x10000
    → IsScalar c
    → from_utf8_in start ((0xe0 + c / 4096) ∷ (0x80 + c / 64 % 64) ∷ (0x80 + c % 64) ∷ l)
      ≡ cons? c (from_utf8_in start l)
three_bytes c l h k s =
    step-on start _ (0xe0 + c / 4096) _ (read-three (c / 4096) (omega arith))
    ∙ step-on _ _ (0x80 + c / 64 % 64) _ (
        read-more 0 (c / 4096) (low3 (c / 4096)) (high3 (c / 4096)) (0x80 + c / 64 % 64)
          (ground arith) (ground arith))
    ∙ step-char _ (0x80 + c % 64) _ l (
        read-last (c / 4096 * 64 + (0x80 + c / 64 % 64 - 0x80)) 0x80 0xbf (0x80 + c % 64)
          (omega arith) (omega arith))
    ∙ ap (λ d. cons? d (from_utf8_in start l)) (omega arith)

four_bytes :
    (c : ℕ) (l : Bytes)
    → 0x10000 ≤ c
    → c < 0x110000
    → from_utf8_in start
        ((0xf0 + c / 262144) ∷ (0x80 + c / 4096 % 64) ∷ (0x80 + c / 64 % 64) ∷ (0x80 + c % 64) ∷ l)
      ≡ cons? c (from_utf8_in start l)
four_bytes c l h k =
    step-on start _ (0xf0 + c / 262144) _ (read-four (c / 262144) (omega arith))
    ∙ step-on _ _ (0x80 + c / 4096 % 64) _ (
        read-more 1 (c / 262144) (low4 (c / 262144)) (high4 (c / 262144)) (0x80 + c / 4096 % 64)
          (ground arith) (ground arith))
    ∙ step-on _ _ (0x80 + c / 64 % 64) _ (
        read-more 0 (c / 262144 * 64 + (0x80 + c / 4096 % 64 - 0x80)) 0x80 0xbf (0x80 + c / 64 % 64)
          (omega arith) (omega arith))
    ∙ step-char _ (0x80 + c % 64) _ l (
        read-last
          ((c / 262144 * 64 + (0x80 + c / 4096 % 64 - 0x80)) * 64 + (0x80 + c / 64 % 64 - 0x80))
          0x80 0xbf (0x80 + c % 64) (omega arith) (omega arith))
    ∙ ap (λ d. cons? d (from_utf8_in start l)) (omega arith)

-- A character's bytes are read as that character.
pub from_utf8_in-encode_char :
    (c : ℕ) (l : Bytes)
    → IsScalar c
    → from_utf8_in start (encode_char c ++ l) ≡ cons? c (from_utf8_in start l)
unfolding encode_char
from_utf8_in-encode_char c l h = elim (Bool-cases (ltb c 0x80)) [
  | inl one ↦ rw one (step-char start c c l (read-one c (ground arith)))
  | inr more ↦ elim (Bool-cases (ltb c 0x800)) [
    | inl two ↦ rw (more, two) (two_bytes c l (ground arith) (ground arith))
    | inr more' ↦ elim (Bool-cases (ltb c 0x10000)) [
      | inl three ↦ rw (more, more', three) (three_bytes c l (ground arith) (ground arith) h)
      | inr four ↦ rw (more, more', four) (four_bytes c l (ground arith) (ground arith))
    ]
  ]
]

-- The bytes of a text decode to that text.
pub from_utf8-encode : (t : Text) → AllScalar t → from_utf8 (encode t) ≡ some t
unfolding encode
from_utf8-encode t h = unfold from_utf8 in all t h
  where
    all : (t : Text) → AllScalar t → from_utf8_in start (encode t) ≡ some t
    all [] h = unfold from_utf8_in in refl
    all (c ∷ t) h = from_utf8_in-encode_char c (encode t) h.0 ∙ ap (cons? c) (all t h.1)
