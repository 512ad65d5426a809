-- ===== src/Client/Fetch/Tail.antt =====
-- The content that agent/src/client.rs sends of its log is whole lines and whole characters.
use tasknexus_client_agent.Prelude.{
  ℕ, zero, suc, ◌+◌, ◌-◌, ◌*◌, ◌≤◌, ◌≡◌, refl, sym, ap, ◌∙◌, false, ◌&&◌, Option, none, some, [],
  ◌∷◌, ◌++◌, if◌then◌else◌, if-both, eqb, leb, arith, drop, Bool-cases, inl, inr,
}
use tasknexus_client_agent.Text.{Text, contains}
use tasknexus_client_agent.Utf8.{
  Bytes, Mode, start, within, Verdict, char, on, bad, lead, continuation, read, from_utf8_in,
  from_utf8, from_utf8_lossy_in, from_utf8_lossy, cons?, replacement, encode, AllScalar,
}
use tasknexus_client_agent.Utf8.Decode.{from_utf8-encode}
use tasknexus_client_agent.Client.Fetch.{
  behind_line, or_whole, offset_of, is_truncated, log_content,
}

-- Within a character, which no line feed can end.
abbrev IsMode : Mode → Type 0
IsMode start = Unit {0}
IsMode (within more value low high) = (0x80 ≤ low) × (11 ≤ value * 64 + (low - 0x80))

-- A verdict on a byte that is no line feed gives no line feed.
abbrev IsPlain : Verdict → Type 0
IsPlain (char c) = eqb c 10 ≡ false
IsPlain (on m) = IsMode m
IsPlain bad = Unit {0}

lead-IsPlain : (b : ℕ) → eqb b 10 ≡ false → IsPlain (lead b)
unfolding lead
lead-IsPlain b h = ground arith

continuation-IsPlain : (more value : ℕ) → 11 ≤ value → IsPlain (continuation more value)
unfolding continuation
continuation-IsPlain zero value h = ground arith
continuation-IsPlain (suc more) value h = (omega arith, omega arith)

read-IsPlain : (m : Mode) (b : ℕ) → IsMode m → eqb b 10 ≡ false → IsPlain (read m b)
unfolding read
read-IsPlain start b i h = lead-IsPlain b h
read-IsPlain (within more value low high) b i h =
    if-both IsPlain (leb low b && leb b high)
      (λ k. continuation-IsPlain more (value * 64 + (b - 0x80)) (ground arith)) (λ _. tt)

module _ (rest : Bytes) (result : Text)
    (ih : (m : Mode) → IsMode m → behind_line (from_utf8_lossy_in m rest) ≡ some result) where
  lead_case :
      (v : Verdict)
      → IsPlain v
      → behind_line (elim v [
        | char c ↦ c ∷ from_utf8_lossy_in start rest
        | on m ↦ from_utf8_lossy_in m rest
        | bad ↦ replacement ∷ from_utf8_lossy_in start rest
      ])
        ≡ some result
  unfolding behind_line
  lead_case (char c) h = rw h (ih start tt)
  lead_case (on m) h = ih m h
  lead_case bad h = ih start tt

  within_case :
      (v w : Verdict)
      → IsPlain v
      → IsPlain w
      → behind_line (elim v [
        | char c ↦ c ∷ from_utf8_lossy_in start rest
        | on m ↦ from_utf8_lossy_in m rest
        | bad ↦ replacement ∷ (elim w [
          | char c ↦ c ∷ from_utf8_lossy_in start rest
          | on m ↦ from_utf8_lossy_in m rest
          | bad ↦ replacement ∷ from_utf8_lossy_in start rest
        ])
      ])
        ≡ some result
  unfolding behind_line
  within_case (char c) w h k = rw h (ih start tt)
  within_case (on m) w h k = ih m h
  within_case bad w h k = lead_case w k

line_feed :
    (m : Mode) (l : Bytes)
    → IsMode m
    → behind_line (from_utf8_lossy_in m (10 ∷ l)) ≡ some (from_utf8_lossy_in start l)
unfolding behind_line from_utf8_lossy_in read lead
line_feed start l i = refl
line_feed (within more value low high) l i = ground arith

behind_line-lossy :
    (m : Mode) (j l : Bytes)
    → IsMode m
    → contains 10 j ≡ false
    → behind_line (from_utf8_lossy_in m (j ++ 10 ∷ l)) ≡ some (from_utf8_lossy_in start l)
unfolding from_utf8_lossy_in contains
behind_line-lossy m [] l i h = line_feed m l i
behind_line-lossy start (b ∷ j) l i h =
    lead_case (j ++ 10 ∷ l) (from_utf8_lossy_in start l)
      (λ m k. behind_line-lossy m j l k (ground arith)) (lead b) (lead-IsPlain b (ground arith))
behind_line-lossy (within more value low high) (b ∷ j) l i h =
    within_case (j ++ 10 ∷ l) (from_utf8_lossy_in start l)
      (λ m k. behind_line-lossy m j l k (ground arith)) (read (within more value low high) b)
      (lead b) (read-IsPlain (within more value low high) b i (ground arith))
      (lead-IsPlain b (ground arith))

cons?-some :
    (c : ℕ) (o : Option Text) (t : Text)
    → cons? c o ≡ some t
    → (rest : Text) × (o ≡ some rest) × (t ≡ c ∷ rest)
cons?-some c none t h = cc
cons?-some c (some rest) t h = ground arith

utf8_case :
    (v : Verdict) (rest : Bytes) (broken t : Text)
    → ((m : Mode) (u : Text) → from_utf8_in m rest ≡ some u → from_utf8_lossy_in m rest ≡ u)
    → (elim v [
      | char c ↦ cons? c (from_utf8_in start rest)
      | on m ↦ from_utf8_in m rest
      | bad ↦ none
    ])
      ≡ some t
    → (elim v [
      | char c ↦ c ∷ from_utf8_lossy_in start rest
      | on m ↦ from_utf8_lossy_in m rest
      | bad ↦ broken
    ])
      ≡ t
utf8_case (char c) rest broken t ih h =
    let read = cons?-some c (from_utf8_in start rest) t h in
    ap (λ r. c ∷ r) (ih start read.0 read.1) ∙ sym read.2
utf8_case (on m) rest broken t ih h = ih m t h
utf8_case bad rest broken t ih h = cc

-- Where the bytes are UTF-8, nothing is replaced.
lossy-utf8 :
    (m : Mode) (l : Bytes) (t : Text) → from_utf8_in m l ≡ some t → from_utf8_lossy_in m l ≡ t
unfolding from_utf8_in from_utf8_lossy_in
lossy-utf8 start [] t h = ground arith
lossy-utf8 (within more value low high) [] t h = cc
lossy-utf8 start (b ∷ l) t h = utf8_case (lead b) l _ t (λ m u k. lossy-utf8 m l u k) h
lossy-utf8 (within more value low high) (b ∷ l) t h =
    utf8_case (read (within more value low high) b) l _ t (λ m u k. lossy-utf8 m l u k) h

from_utf8_lossy-encode : (t : Text) → AllScalar t → from_utf8_lossy (encode t) ≡ t
unfolding from_utf8_lossy from_utf8
from_utf8_lossy-encode t h = lossy-utf8 start (encode t) t (from_utf8-encode t h)

-- The server gets whole lines and whole characters of a log that is UTF-8 from the start of a line
-- on. A log that fits is sent whole; of a longer one, the first line of the bytes that are asked
-- for is left out up to its line feed, whatever the bytes before it are.
pub log_content-lines :
    (tail_bytes : ℕ) (bytes cut : Bytes) (t : Text)
    → AllScalar t
    → contains 10 cut ≡ false
    → drop (offset_of tail_bytes bytes) bytes
      ≡ (if is_truncated tail_bytes bytes then cut ++ 10 ∷ encode t else encode t)
    → log_content tail_bytes bytes ≡ t
unfolding log_content from_utf8_lossy
log_content-lines tail_bytes bytes cut t h plain e =
    elim (Bool-cases (is_truncated tail_bytes bytes)) [
      | inl longer ↦
          rw (e, longer)
            (ap (or_whole _) (behind_line-lossy start cut (encode t) tt plain)
              ∙ from_utf8_lossy-encode t h)
      | inr whole ↦ rw (e, whole) (from_utf8_lossy-encode t h)
    ]
