-- ===== src/Utf8/Prefix.antt =====
-- A piece of UTF-8 that is cut within a character, or between two.
use tasknexus_client_agent.Prelude.{
  ℕ, zero, suc, ◌+◌, ◌-◌, ◌*◌, ◌/◌, ◌%◌, ◌≤◌, ◌<◌, none, List, [], ◌∷◌, ◌++◌, ◌≡◌, refl, ap, ◌∙◌,
  inl, inr, ltb, arith, Bool-cases, take, length,
}
use native.Mathlib.Nat.{suc-add}
use tasknexus_client_agent.Utf8.{
  Bytes, IsScalar, encode_char, start, within, cons?, from_utf8_in, from_utf8,
}
use tasknexus_client_agent.Utf8.Decode.{
  from_utf8_in-encode_char, step-on, read-two, read-three, read-four, read-more, low3, high3, low4,
  high4,
}

pub width_bounds : (c : ℕ) → (1 ≤ length (encode_char c)) × (length (encode_char c) ≤ 4)
unfolding encode_char
width_bounds c = ground arith

pub take-append_more {ℓ} :
    {A : Type ℓ} (k : ℕ) (xs ys : List A) → take (length xs + k) (xs ++ ys) ≡ xs ++ take k ys
take-append_more k [] ys = ap (λ n. take n ys) (omega arith)
take-append_more k (x ∷ xs) ys = rw suc-add (ap (λ l. x ∷ l) (take-append_more k xs ys))

-- Between two characters.
pub from_utf8-cut :
    (c k : ℕ) (l : Bytes)
    → IsScalar c
    → from_utf8 (take (length (encode_char c) + k) (encode_char c ++ l))
      ≡ cons? c (from_utf8 (take k l))
unfolding from_utf8
from_utf8-cut c k l h =
    ap (from_utf8_in start) (take-append_more k (encode_char c) l)
    ∙ from_utf8_in-encode_char c (take k l) h

unfinished : (more value low high : ℕ) → from_utf8_in (within more value low high) [] ≡ none
unfolding from_utf8_in
unfinished more value low high = refl

cut_two :
    (c n : ℕ) (l : Bytes)
    → 0x80 ≤ c
    → c < 0x800
    → n < 1
    → from_utf8_in start ((0xc0 + c / 64) ∷ take n l) ≡ none
cut_two c zero l h k b =
    step-on start _ (0xc0 + c / 64) _ (read-two (c / 64) (omega arith) (omega arith))
    ∙ unfinished _ _ _ _
cut_two c (suc n) l h k b = absurd (omega arith)

cut_three :
    (c n : ℕ) (l : Bytes)
    → 0x800 ≤ c
    → c < 0x10000
    → IsScalar c
    → n < 2
    → from_utf8_in start ((0xe0 + c / 4096) ∷ take n ((0x80 + c / 64 % 64) ∷ l)) ≡ none
cut_three c zero l h k s b =
    step-on start _ (0xe0 + c / 4096) _ (read-three (c / 4096) (omega arith)) ∙ unfinished _ _ _ _
cut_three c (suc zero) l h k s b =
    step-on start _ (0xe0 + c / 4096) _ (read-three (c / 4096) (omega arith))
    ∙ step-on _ _ (0x80 + c / 64 % 64) _ (
        read-more 0 (c / 4096) (low3 (c / 4096)) (high3 (c / 4096)) (0x80 + c / 64 % 64)
          (ground arith) (ground arith))
    ∙ unfinished _ _ _ _
cut_three c (suc (suc n)) l h k s b = absurd (omega arith)

cut_four :
    (c n : ℕ) (l : Bytes)
    → 0x10000 ≤ c
    → c < 0x110000
    → n < 3
    → from_utf8_in start
        ((0xf0 + c / 262144) ∷ take n ((0x80 + c / 4096 % 64) ∷ (0x80 + c / 64 % 64) ∷ l))
      ≡ none
cut_four c zero l h k b =
    step-on start _ (0xf0 + c / 262144) _ (read-four (c / 262144) (omega arith))
    ∙ unfinished _ _ _ _
cut_four c (suc zero) l h k b =
    step-on start _ (0xf0 + c / 262144) _ (read-four (c / 262144) (omega arith))
    ∙ step-on _ _ (0x80 + c / 4096 % 64) _ (
        read-more 1 (c / 262144) (low4 (c / 262144)) (high4 (c / 262144)) (0x80 + c / 4096 % 64)
          (ground arith) (ground arith))
    ∙ unfinished _ _ _ _
cut_four c (suc (suc zero)) l h k b =
    step-on start _ (0xf0 + c / 262144) _ (read-four (c / 262144) (omega arith))
    ∙ step-on _ _ (0x80 + c / 4096 % 64) _ (
        read-more 1 (c / 262144) (low4 (c / 262144)) (high4 (c / 262144)) (0x80 + c / 4096 % 64)
          (ground arith) (ground arith))
    ∙ step-on _ _ (0x80 + c / 64 % 64) _ (
        read-more 0 (c / 262144 * 64 + (0x80 + c / 4096 % 64 - 0x80)) 0x80 0xbf (0x80 + c / 64 % 64)
          (omega arith) (omega arith))
    ∙ unfinished _ _ _ _
cut_four c (suc (suc (suc n))) l h k b = absurd (omega arith)

-- Within a character.
pub from_utf8-cut_within :
    (c n : ℕ) (l : Bytes)
    → IsScalar c
    → suc n < length (encode_char c)
    → from_utf8 (take (suc n) (encode_char c ++ l)) ≡ none
unfolding encode_char from_utf8
from_utf8-cut_within c n l h = elim (Bool-cases (ltb c 0x80)) [
  | inl one ↦ rw one (λ b. absurd (omega arith))
  | inr more ↦ elim (Bool-cases (ltb c 0x800)) [
    | inl two ↦ rw (more, two) (λ b. cut_two c n _ (ground arith) (ground arith) (omega arith))
    | inr more' ↦ elim (Bool-cases (ltb c 0x10000)) [
      | inl three ↦
          rw (more, more', three)
            (λ b. cut_three c n _ (ground arith) (ground arith) h (omega arith))
      | inr four ↦
          rw (more, more', four) (λ b. cut_four c n _ (ground arith) (ground arith) (omega arith))
    ]
  ]
]
