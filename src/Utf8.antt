-- ===== src/Utf8.antt =====
-- UTF-8 as the standard library has it: the bytes of a `String`, `str::from_utf8` and
-- `String::from_utf8_lossy`. Bytes and characters are numbers.
pub mod Decode
pub mod Prefix
use tasknexus_client_agent.Prelude.{
  ℕ, zero, suc, ◌+◌, ◌-◌, ◌*◌, ◌/◌, ◌%◌, ◌≤◌, ◌<◌, Bool, true, false, ◌&&◌, Option, none, some,
  List, [], ◌∷◌, ◌++◌, if◌then◌else◌, ltb, leb, eqb, ◌⊎◌,
}
use tasknexus_client_agent.Text.{Text}

abbrev pub Bytes : Type 0
Bytes = List ℕ

-- The values of `char`.
abbrev pub IsScalar : ℕ → Type 0
IsScalar c = (c < 0xd800) ⊎ ((0xe000 ≤ c) × (c < 0x110000))

abbrev pub AllScalar : Text → Type 0
AllScalar [] = Unit
AllScalar (c ∷ t) = IsScalar c × AllScalar t

unfoldable pub encode_char : ℕ → Bytes
encode_char c =
    if ltb c 0x80
    then c ∷ []
    else if ltb c 0x800
    then (0xc0 + c / 64) ∷ (0x80 + c % 64) ∷ []
    else if ltb c 0x10000
    then (0xe0 + c / 4096) ∷ (0x80 + c / 64 % 64) ∷ (0x80 + c % 64) ∷ []
    else (0xf0 + c / 262144) ∷ (0x80 + c / 4096 % 64) ∷ (0x80 + c / 64 % 64) ∷ (0x80 + c % 64) ∷ []

-- `as_bytes`
unfoldable pub encode : Text → Bytes
encode [] = []
encode (c ∷ t) = encode_char c ++ encode t

-- Between characters, or within one: the continuation bytes that are still to come behind the
-- next, the value so far, and the range of the next byte.
pub data Mode : Type 0 where
  start : Mode
  within : (more value low high : ℕ) → Mode

-- A byte ends a character, leads on, or is no part of UTF-8 here.
pub data Verdict : Type 0 where
  char : ℕ → Verdict
  on : Mode → Verdict
  bad : Verdict

unfoldable pub lead : ℕ → Verdict
lead b =
    if ltb b 0x80
    then char b
    else if leb 0xc2 b && leb b 0xdf
    then on (within 0 (b - 0xc0) 0x80 0xbf)
    else if eqb b 0xe0
    then on (within 1 0 0xa0 0xbf)
    else if eqb b 0xed
    then on (within 1 0xd 0x80 0x9f)
    else if leb 0xe1 b && leb b 0xef
    then on (within 1 (b - 0xe0) 0x80 0xbf)
    else if eqb b 0xf0
    then on (within 2 0 0x90 0xbf)
    else if eqb b 0xf4
    then on (within 2 4 0x80 0x8f)
    else if leb 0xf1 b && leb b 0xf3
    then on (within 2 (b - 0xf0) 0x80 0xbf)
    else bad

unfoldable pub continuation : ℕ → ℕ → Verdict
continuation zero value = char value
continuation (suc more) value = on (within more value 0x80 0xbf)

unfoldable pub read : Mode → ℕ → Verdict
unfolding lead continuation
read start b = lead b
read (within more value low high) b =
    if leb low b && leb b high then continuation more (value * 64 + (b - 0x80)) else bad

abbrev pub cons? : ℕ → Option Text → Option Text
cons? c none = none
cons? c (some t) = some (c ∷ t)

-- `str::from_utf8(bytes).ok()`
unfoldable pub from_utf8_in : Mode → Bytes → Option Text
from_utf8_in start [] = some []
from_utf8_in (within more value low high) [] = none
from_utf8_in m (b ∷ l) = elim (read m b) [
  | char c ↦ cons? c (from_utf8_in start l)
  | on m' ↦ from_utf8_in m' l
  | bad ↦ none
]

unfoldable pub from_utf8 : Bytes → Option Text
unfolding from_utf8_in read
from_utf8 l = from_utf8_in start l

abbrev pub replacement : ℕ
replacement = 0xfffd

-- The bytes of a broken sequence give one replacement character, and the byte that breaks it is
-- read afresh.
unfoldable pub from_utf8_lossy_in : Mode → Bytes → Text
unfolding read
from_utf8_lossy_in start [] = []
from_utf8_lossy_in (within more value low high) [] = replacement ∷ []
from_utf8_lossy_in start (b ∷ l) = elim (lead b) [
  | char c ↦ c ∷ from_utf8_lossy_in start l
  | on m' ↦ from_utf8_lossy_in m' l
  | bad ↦ replacement ∷ from_utf8_lossy_in start l
]
from_utf8_lossy_in (within more value low high) (b ∷ l) =
    elim (read (within more value low high) b) [
      | char c ↦ c ∷ from_utf8_lossy_in start l
      | on m' ↦ from_utf8_lossy_in m' l
      | bad ↦ replacement ∷ (elim (lead b) [
        | char c ↦ c ∷ from_utf8_lossy_in start l
        | on m' ↦ from_utf8_lossy_in m' l
        | bad ↦ replacement ∷ from_utf8_lossy_in start l
      ])
    ]

unfoldable pub from_utf8_lossy : Bytes → Text
unfolding from_utf8_lossy_in
from_utf8_lossy l = from_utf8_lossy_in start l
