-- ===== src/Log/Chunk/Cut.antt =====
-- The characters of a log that `read_utf8_chunk` of agent/src/main.rs brings.
use tasknexus_client_agent.Prelude.{
  ℕ, zero, suc, ◌+◌, ◌-◌, ◌≤◌, ◌<◌, min, true, false, Option, none, some, List, [], ◌∷◌, ◌++◌, ◌≡◌,
  refl, ap, ◌∙◌, sym, inl, inr, if◌then◌else◌, leb, arith, Bool-cases, take, drop, length, is_some,
  length-append, length-take,
}
use tasknexus_client_agent.Text.{Text}
use tasknexus_client_agent.Utf8.{Bytes, IsScalar, AllScalar, encode_char, encode, cons?, from_utf8}
use tasknexus_client_agent.Utf8.Decode.{from_utf8-encode}
use tasknexus_client_agent.Utf8.Prefix.{
  width_bounds, from_utf8-cut, from_utf8-cut_within, take-append_more,
}
use tasknexus_client_agent.Log.Chunk.{valid_len, decode_prefix, read_utf8_chunk}

abbrev pub width : ℕ → ℕ
width c = length (encode_char c)

-- The characters of a text that fit into `n` bytes.
pub fit : ℕ → Text → Text
fit n [] = []
fit n (c ∷ t) = let rest = fit (n - width c) t in if leb (width c) n then c ∷ rest else []

valid_len-hit :
    (n : ℕ) (raw : Bytes)
    → is_some (from_utf8 (take (suc n) raw)) ≡ true
    → valid_len (suc n) raw ≡ suc n
unfolding valid_len
valid_len-hit n raw h = rw h

valid_len-miss :
    (n : ℕ) (raw : Bytes)
    → is_some (from_utf8 (take (suc n) raw)) ≡ false
    → valid_len (suc n) raw ≡ valid_len n raw
unfolding valid_len
valid_len-miss n raw h = rw h

valid_len-within :
    (c n : ℕ) (l : Bytes) → IsScalar c → n < width c → valid_len n (encode_char c ++ l) ≡ 0
valid_len-within c zero l s h = unfold valid_len in refl
valid_len-within c (suc n) l s h =
    valid_len-miss n (encode_char c ++ l) (rw (from_utf8-cut_within c n l s h))
    ∙ valid_len-within c n l s (omega arith)

some_cons? : (c : ℕ) (o : Option Text) → is_some (cons? c o) ≡ is_some o
some_cons? c none = refl
some_cons? c (some t) = refl

hit : (n : ℕ) (raw : Bytes) → 0 < n → is_some (from_utf8 (take n raw)) ≡ true → valid_len n raw ≡ n
hit zero raw p h = absurd (omega arith)
hit (suc n) raw p h = valid_len-hit n raw h

miss :
    (n : ℕ) (raw : Bytes)
    → 0 < n
    → is_some (from_utf8 (take n raw)) ≡ false
    → valid_len n raw ≡ valid_len (n - 1) raw
miss zero raw p h = absurd (omega arith)
miss (suc n) raw p h = valid_len-miss n raw h ∙ ap (λ k. valid_len k raw) (omega arith)

cut_some :
    (c k : ℕ) (l : Bytes)
    → IsScalar c
    → is_some (from_utf8 (take (width c + k) (encode_char c ++ l))) ≡ is_some (from_utf8 (take k l))
cut_some c k l s = ap is_some (from_utf8-cut c k l s) ∙ some_cons? c (from_utf8 (take k l))

valid_len-behind :
    (c k : ℕ) (l : Bytes)
    → IsScalar c
    → valid_len (width c + k) (encode_char c ++ l) ≡ width c + valid_len k l
unfolding encode
valid_len-behind c zero l s =
    let w = width_bounds c in
    hit (width c + 0) (encode_char c ++ l) (omega arith)
      (cut_some c 0 l s ∙ ap is_some (from_utf8-encode [] tt))
    ∙ unfold valid_len in refl
valid_len-behind c (suc k) l s = elim (Bool-cases (is_some (from_utf8 (take (suc k) l)))) [
  | inl h ↦
      hit (width c + suc k) (encode_char c ++ l) (omega arith) (cut_some c (suc k) l s ∙ h)
      ∙ ap (λ n. width c + n) (sym (hit (suc k) l (omega arith) h))
  | inr h ↦
      miss (width c + suc k) (encode_char c ++ l) (omega arith) (cut_some c (suc k) l s ∙ h)
      ∙ ap (λ n. valid_len n (encode_char c ++ l)) (omega arith)
      ∙ valid_len-behind c k l s
      ∙ ap (λ n. width c + n) (sym (valid_len-miss k l h))
]

-- Of the bytes of a text, the loop keeps those of the characters that fit.
pub valid_len-encode :
    (n : ℕ) (t : Text)
    → AllScalar t
    → n ≤ length (encode t)
    → valid_len n (encode t) ≡ length (encode (fit n t))
unfolding fit encode
valid_len-encode n [] s h = let e : n ≡ 0 = omega arith in rw e (unfold valid_len in refl)
valid_len-encode n (c ∷ t) s h = elim (Bool-cases (leb (width c) n)) [
  | inl fits ↦
      let e : n ≡ width c + (n - width c) = ground arith in
      rw fits (
        ap (λ k. valid_len k (encode_char c ++ encode t)) e
        ∙ valid_len-behind c (n - width c) (encode t) s.0
        ∙ ap (λ k. width c + k)
            (valid_len-encode (n - width c) t s.1
              (omega (arith, length-append (encode_char c) (encode t))))
        ∙ sym (length-append (encode_char c) (encode (fit (n - width c) t))))
  | inr cut ↦ rw cut (valid_len-within c n (encode t) s.0 (ground arith))
]

take-take {ℓ} : {A : Type ℓ} (n m : ℕ) (l : List A) → n ≤ m → take n (take m l) ≡ take n l
take-take zero m l h = refl
take-take (suc n) zero l h = absurd (omega arith)
take-take (suc n) (suc m) [] h = refl
take-take (suc n) (suc m) (x ∷ l) h = ap (λ k. x ∷ k) (take-take n m l (omega arith))

valid_len-take : (n m : ℕ) (l : Bytes) → n ≤ m → valid_len n (take m l) ≡ valid_len n l
unfolding valid_len
valid_len-take zero m l h = refl
valid_len-take (suc n) m l h = cc (take-take (suc n) m l h, valid_len-take n m l (omega arith))

-- What fits is a prefix of the text, in no more bytes than there are.
pub fit_prefix :
    (n : ℕ) (t : Text)
    → (take (length (encode (fit n t))) (encode t) ≡ encode (fit n t))
      × (length (encode (fit n t)) ≤ n)
      × (length (encode (fit n t)) ≤ length (encode t))
unfolding fit encode
fit_prefix n [] = (refl, omega arith, omega arith)
fit_prefix n (c ∷ t) = elim (Bool-cases (leb (width c) n)) [
  | inl fits ↦
      let (p, q, r) = fit_prefix (n - width c) t in
      let a = length-append (encode_char c) (encode (fit (n - width c) t)) in
      let b = length-append (encode_char c) (encode t) in
      rw fits (
        ap (λ k. take k (encode_char c ++ encode t)) a
            ∙ take-append_more (length (encode (fit (n - width c) t))) (encode_char c) (encode t)
            ∙ ap (λ l. encode_char c ++ l) p,
        ground (arith, a),
        omega (arith, a, b),
      )
  | inr cut ↦ rw cut (refl, omega arith, omega arith)
]

fit-AllScalar : (n : ℕ) (t : Text) → AllScalar t → AllScalar (fit n t)
unfolding fit
fit-AllScalar n [] s = tt
fit-AllScalar n (c ∷ t) s = elim (Bool-cases (leb (width c) n)) [
  | inl fits ↦ rw fits (s.0, fit-AllScalar (n - width c) t s.1)
  | inr cut ↦ rw cut tt
]

fit_all : (m : ℕ) (t : Text) → fit (min m (length (encode t))) t ≡ fit m t
unfolding fit encode
fit_all m [] = refl
fit_all m (c ∷ t) =
    let a = length-append (encode_char c) (encode t) in
    elim (Bool-cases (leb (width c) m)) [
      | inl fits ↦
          let fits' : leb (width c) (min m (length (encode_char c ++ encode t))) ≡ true =
            ground (arith, a) in
          let e : min m (length (encode_char c ++ encode t)) - width c
              ≡ min (m - width c) (length (encode t)) =
            omega (arith, a) in
          rw (fits, fits') (ap (λ l. c ∷ l) (ap (λ k. fit k t) e ∙ fit_all (m - width c) t))
      | inr cut ↦
          let cut' : leb (width c) (min m (length (encode_char c ++ encode t))) ≡ false =
            ground (arith, a) in
          rw (cut, cut')
    ]

decoded :
    (raw : Bytes) (n : ℕ) (content : Text)
    → valid_len (length raw) raw ≡ n
    → from_utf8 (take n raw) ≡ some content
    → decode_prefix raw ≡ (content, n)
unfolding decode_prefix
decoded raw n content e f =
    let g : from_utf8 (take (valid_len (length raw) raw) raw) ≡ some content =
      ap (λ k. from_utf8 (take k raw)) e ∙ f in
    ground (arith, g, e)

decode_prefix-text :
    (m : ℕ) (t : Text)
    → AllScalar t
    → decode_prefix (take m (encode t)) ≡ (fit m t, length (encode (fit m t)))
decode_prefix-text m t s =
    let n : ℕ = min m (length (encode t)) in
    let (p, q, r) = fit_prefix m t in
    let len : valid_len (length (take m (encode t))) (take m (encode t))
        ≡ length (encode (fit m t)) =
      ap (λ k. valid_len k (take m (encode t))) (length-take m (encode t))
      ∙ valid_len-take n m (encode t) (omega arith)
      ∙ valid_len-encode n t s (omega arith)
      ∙ ap (λ l. length (encode l)) (fit_all m t) in
    let text : from_utf8 (take (length (encode (fit m t))) (take m (encode t))) ≡ some (fit m t) =
      ap from_utf8 (take-take (length (encode (fit m t))) m (encode t) q ∙ p)
      ∙ from_utf8-encode (fit m t) (fit-AllScalar m t s) in
    decoded (take m (encode t)) (length (encode (fit m t))) (fit m t) len text

read_some :
    (limit max_bytes start : ℕ) (file : Bytes)
    → read_utf8_chunk (some limit) file start max_bytes
      ≡ some (decode_prefix (take (min limit max_bytes) (drop start file)))
unfolding read_utf8_chunk
read_some limit max_bytes start file = refl

-- Read at the start of a character, a log that is text gives the whole characters that fit, and
-- says how many bytes they take.
pub read_utf8_chunk-text :
    (limit max_bytes start : ℕ) (file : Bytes) (t : Text)
    → AllScalar t
    → drop start file ≡ encode t
    → read_utf8_chunk (some limit) file start max_bytes
      ≡ some (fit (min limit max_bytes) t, length (encode (fit (min limit max_bytes) t)))
read_utf8_chunk-text limit max_bytes start file t s e =
    read_some limit max_bytes start file
    ∙ ap (λ l. some (decode_prefix (take (min limit max_bytes) l))) e
    ∙ ap some (decode_prefix-text (min limit max_bytes) t s)

-- A read of four bytes or more gives at least one character of a text that is not empty.
pub fit_progress : (n c : ℕ) (t : Text) → 4 ≤ n → (rest : Text) × (fit n (c ∷ t) ≡ c ∷ rest)
unfolding fit
fit_progress n c t h = (fit (n - width c) t, ground (arith, width_bounds c))

-- A read of four bytes or more, at the start of a character of a log that is text, brings at least
-- that character: the synchronisation does not stand still.
pub read_utf8_chunk-progress :
    (limit max_bytes start c : ℕ) (file : Bytes) (t : Text)
    → AllScalar (c ∷ t)
    → drop start file ≡ encode (c ∷ t)
    → 4 ≤ min limit max_bytes
    → (rest : Text) × (byte_len : ℕ) × (read_utf8_chunk (some limit) file start max_bytes
        ≡ some (c ∷ rest, byte_len))
read_utf8_chunk-progress limit max_bytes start c file t s e h =
    let m = min limit max_bytes in
    let p = fit_progress m c t h in
    (
      p.0,
      length (encode (fit m (c ∷ t))),
      read_utf8_chunk-text limit max_bytes start file (c ∷ t) s e
          ∙ ap (λ f. some (f, length (encode (fit m (c ∷ t))))) p.1,
    )
