-- ===== src/Executor/Stream/Lines.antt =====
-- The text that the chunks of a stream make up, however its reads are cut.
use tasknexus_client_agent.Prelude.{
  ℕ, ◌≤◌, ◌+◌, ◌/◌, ◌%◌, ltb, true, false, List, [], ◌∷◌, ◌++◌, ◌≡◌, refl, sym, ap, ap₂, ◌∙◌,
  if-both, append-nil, append_assoc, arith, Bool-cases, inl, inr,
}
use tasknexus_client_agent.Text.{Text}
use tasknexus_client_agent.Utf8.{Bytes, from_utf8, from_utf8_in, encode, encode_char, AllScalar}
use tasknexus_client_agent.Utf8.Decode.{from_utf8-encode}
use tasknexus_client_agent.Executor.Output.Tail.{concat}
use tasknexus_client_agent.Executor.Stream.{
  decode_bytes, or_lossy, ends_line, split_stream_chunks, flush_stream_buffer, to_list, read_chunks,
}

decode-encode : (t : Text) → AllScalar t → decode_bytes (encode t) ≡ t
unfolding decode_bytes
decode-encode t s = ap (λ o. or_lossy o (encode t)) (from_utf8-encode t s)

abbrev NoLineEnd : Bytes → Type 0
NoLineEnd [] = Unit
NoLineEnd (b ∷ l) = (ends_line b ≡ false) × NoLineEnd l

far : (k x : ℕ) → 14 ≤ k → ends_line (k + x) ≡ false
far k x h = ground arith

encode_char-NoLineEnd : (c : ℕ) → ends_line c ≡ false → NoLineEnd (encode_char c)
unfolding encode_char
encode_char-NoLineEnd c h =
    if-both NoLineEnd (ltb c 0x80) (λ _. (h, tt))
      (λ _.
        if-both NoLineEnd (ltb c 0x800) (λ _. (far 0xc0 (c / 64) (omega arith), (rest c, tt)))
          (λ _.
            if-both NoLineEnd (ltb c 0x10000)
              (λ _. (far 0xe0 (c / 4096) (omega arith), (rest (c / 64), (rest c, tt))))
              (λ _. (
                far 0xf0 (c / 262144) (omega arith),
                (rest (c / 4096), (rest (c / 64), (rest c, tt))),
              ))))
  where
    rest : (x : ℕ) → ends_line (0x80 + x % 64) ≡ false
    rest x = far 0x80 (x % 64) (omega arith)

encode_char-line_end : (c : ℕ) → ends_line c ≡ true → encode_char c ≡ c ∷ []
unfolding encode_char
encode_char-line_end c h = ground arith

encode-append : (q t : Text) → encode (q ++ t) ≡ encode q ++ encode t
unfolding encode
encode-append [] t = refl
encode-append (c ∷ q) t =
    ap (λ l. encode_char c ++ l) (encode-append q t)
    ∙ sym (append_assoc (encode_char c) (encode q) (encode t))

AllScalar-append : (q t : Text) → AllScalar q → AllScalar t → AllScalar (q ++ t)
AllScalar-append [] t h k = k
AllScalar-append (c ∷ q) t (a, h) k = (a, AllScalar-append q t h k)

-- Bytes that end no line only wait.
split-wait :
    (bytes rest pending : Bytes)
    → NoLineEnd bytes
    → split_stream_chunks pending (bytes ++ rest) ≡ split_stream_chunks (pending ++ bytes) rest
unfolding split_stream_chunks
split-wait [] rest pending h = ap (λ p. split_stream_chunks p rest) (sym (append-nil pending))
split-wait (b ∷ bytes) rest pending (h, k) = rw h (
    split-wait bytes rest (pending ++ b ∷ []) k
    ∙ ap (λ p. split_stream_chunks p rest) (append_assoc pending (b ∷ []) bytes))

-- The stream up to its end, as one read.
abbrev whole : Bytes → Bytes → List Text
whole pending bytes =
    let split = split_stream_chunks pending bytes in
    split.0 ++ to_list (flush_stream_buffer split.1)

-- How the bytes are cut into reads makes no difference.
split-then :
    (first rest pending : Bytes)
    → split_stream_chunks pending (first ++ rest) ≡ (
      (split_stream_chunks pending first).0
          ++ (split_stream_chunks (split_stream_chunks pending first).1 rest).0,
      (split_stream_chunks (split_stream_chunks pending first).1 rest).1,
    )
unfolding split_stream_chunks
split-then [] rest pending = refl
split-then (b ∷ first) rest pending = elim (Bool-cases (ends_line b)) [
  | inl h ↦
      rw h (ap (λ r. (decode_bytes (pending ++ b ∷ []) ∷ r.0, r.1)) (split-then first rest []))
  | inr h ↦ rw h (split-then first rest (pending ++ b ∷ []))
]

abbrev pub joined : List Bytes → Bytes
joined [] = []
joined (read ∷ reads) = read ++ joined reads

read_chunks-whole :
    (reads : List Bytes) (pending : Bytes)
    → read_chunks pending reads ≡ whole pending (joined reads)
unfolding read_chunks
read_chunks-whole [] pending = unfold split_stream_chunks in refl
read_chunks-whole (read ∷ reads) pending =
    let split = split_stream_chunks pending read in
    ap (λ l. split.0 ++ l) (read_chunks-whole reads split.1)
    ∙ sym (append_assoc split.0 _ _)
    ∙ sym (
        ap (λ r. r.0 ++ to_list (flush_stream_buffer r.1)) (split-then read (joined reads) pending))

concat-flush : (p : Bytes) → concat (to_list (flush_stream_buffer p)) ≡ decode_bytes p
unfolding flush_stream_buffer
concat-flush [] = unfold decode_bytes in unfold from_utf8 in unfold from_utf8_in in refl
concat-flush (b ∷ p) = append-nil (decode_bytes (b ∷ p))

encode-snoc :
    (q : Text) (c : ℕ) → encode_char c ≡ c ∷ [] → encode q ++ c ∷ [] ≡ encode (q ++ c ∷ [])
unfolding encode
encode-snoc q c h =
    ap (λ l. encode q ++ l) (sym (append-nil (c ∷ [])) ∙ ap (λ l. l ++ []) (sym h))
    ∙ sym (encode-append q (c ∷ []))

whole-line_end :
    (c : ℕ) (pending rest : Bytes)
    → ends_line c ≡ true
    → concat (whole pending (c ∷ rest)) ≡ decode_bytes (pending ++ c ∷ []) ++ concat (whole [] rest)
unfolding split_stream_chunks
whole-line_end c pending rest h = rw h refl

whole-text :
    (t q : Text) → AllScalar q → AllScalar t → concat (whole (encode q) (encode t)) ≡ q ++ t
unfolding encode
whole-text [] q hq ht =
    unfold split_stream_chunks in
    (concat-flush (encode q) ∙ decode-encode q hq ∙ sym (append-nil q))
whole-text (c ∷ t) q hq (hc, ht) = elim (Bool-cases (ends_line c)) [
  | inl h ↦
      ap (λ l. concat (whole (encode q) (l ++ encode t))) (encode_char-line_end c h)
      ∙ whole-line_end c (encode q) (encode t) h
      ∙ ap₂ (λ x y. x ++ y)
          (ap decode_bytes (encode-snoc q c (encode_char-line_end c h))
            ∙ decode-encode (q ++ c ∷ []) (AllScalar-append q (c ∷ []) hq (hc, tt)))
          (whole-text t [] tt ht)
      ∙ append_assoc q (c ∷ []) t
  | inr h ↦
      ap (λ r. concat (r.0 ++ to_list (flush_stream_buffer r.1)))
        (split-wait (encode_char c) (encode t) (encode q) (encode_char-NoLineEnd c h))
      ∙ ap (λ p. concat (whole p (encode t)))
          (ap (λ l. encode q ++ l) (sym (append-nil (encode_char c)))
            ∙ sym (encode-append q (c ∷ [])))
      ∙ whole-text t (q ++ c ∷ []) (AllScalar-append q (c ∷ []) hq (hc, tt)) ht
      ∙ append_assoc q (c ∷ []) t
]

-- What a command writes in UTF-8 comes through whole, however the reads cut it, even within a
-- character: the chunks, one behind the other, are the text.
pub read_chunks-text :
    (t : Text) (reads : List Bytes)
    → AllScalar t
    → joined reads ≡ encode t
    → concat (read_chunks [] reads) ≡ t
read_chunks-text t reads h e =
    ap concat (read_chunks-whole reads [])
    ∙ ap (λ b. concat (whole [] b)) e
    ∙ unfold encode in whole-text t [] tt h
