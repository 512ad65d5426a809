-- ===== src/Executor/Output/Tail.antt =====
-- What an `OutputTail` holds.
use tasknexus_client_agent.Prelude.{
  ℕ, ◌-◌, ◌+◌, ◌≤◌, ◌<◌, Bool, true, false, List, [], ◌∷◌, ◌++◌, ◌≡◌, refl, sym, ap, ap₂, ◌∙◌,
  if-both, leb, length, drop, arith, length-append, length-drop, drop-drop, drop-append, append-nil,
  append_assoc, not,
}
use tasknexus_client_agent.Text.{Text}
use tasknexus_client_agent.Executor.Output.{
  OutputTail, append, cut_to, empty_tail, max_captured_output_chars,
}

-- The last characters of everything, and whether that is less than everything.
abbrev pub tail_of : Text → OutputTail
tail_of all = record {
  text = drop (length all - max_captured_output_chars) all;
  truncated = not (leb (length all) max_captured_output_chars);
}

abbrev pub append_all : List Text → OutputTail → OutputTail
append_all [] o = o
append_all (chunk ∷ chunks) o = append_all chunks (append chunk o)

abbrev pub concat : List Text → Text
concat [] = []
concat (chunk ∷ chunks) = chunk ++ concat chunks

-- Dropping in two goes, with a text put behind in between.
drop-drop_append :
    (m n : ℕ) (all chunk : Text)
    → n ≤ length all
    → drop m (drop n all ++ chunk) ≡ drop (n + m) (all ++ chunk)
drop-drop_append m n all chunk h =
    ap (drop m) (sym (drop-append n all chunk h)) ∙ drop-drop m n (all ++ chunk)

abbrev make : Text → Bool → OutputTail
make text truncated = record { text = text; truncated = truncated }

-- The two cases of `append`, on the lengths alone: `l` characters before, of which `d` are dropped, and `k`
-- more, with a limit `m`.
fits :
    (l k d n t m : ℕ)
    → d ≡ l - m
    → n ≡ (l - d) + k
    → t ≡ l + k
    → 0 < k
    → leb n m ≡ true
    → (d ≡ 0) × (t - m ≡ 0) × (leb l m ≡ leb t m)
fits l k d n t m hd hn ht hk h = ground arith

overflows :
    (l k d n t m : ℕ)
    → d ≡ l - m
    → n ≡ (l - d) + k
    → t ≡ l + k
    → leb n m ≡ false
    → (d + (n - m) ≡ t - m) × (leb t m ≡ false) × (d ≤ l)
overflows l k d n t m hd hn ht h = ground arith

length_after :
    (all chunk : Text) (d : ℕ) → length (drop d all ++ chunk) ≡ (length all - d) + length chunk
length_after all chunk d =
    length-append (drop d all) chunk ∙ ap (λ n. n + length chunk) (length-drop d all)

cut_to-tail_of :
    (all : Text) (c : ℕ) (chunk : Text)
    → cut_to
        (length ((tail_of all).text ++ c ∷ chunk))
        ((tail_of all).text ++ c ∷ chunk)
        (tail_of all)
      ≡ tail_of (all ++ c ∷ chunk)
cut_to-tail_of all c chunk =
    let d = length all - max_captured_output_chars in
    if-both (λ r. r ≡ tail_of (all ++ c ∷ chunk))
      (leb (length (drop d all ++ c ∷ chunk)) max_captured_output_chars)
      (λ h.
        let f =
          fits (length all) (length (c ∷ chunk)) d _ _ max_captured_output_chars refl
            (length_after all (c ∷ chunk) d) (length-append all (c ∷ chunk)) (omega arith) h in
        ap₂ make
          (ap (λ n. drop n all ++ c ∷ chunk) f.0 ∙ sym (ap (λ n. drop n (all ++ c ∷ chunk)) f.1))
          (ap not f.2))
      (λ h.
        let f =
          overflows (length all) (length (c ∷ chunk)) d _ _ max_captured_output_chars refl
            (length_after all (c ∷ chunk) d) (length-append all (c ∷ chunk)) h in
        ap₂ make
          (drop-drop_append _ d all (c ∷ chunk) f.2 ∙ ap (λ n. drop n (all ++ c ∷ chunk)) f.0)
          (sym (ap not f.1)))

pub append-tail_of : (all chunk : Text) → append chunk (tail_of all) ≡ tail_of (all ++ chunk)
unfolding append
append-tail_of all [] = ap tail_of (sym (append-nil all))
append-tail_of all (c ∷ chunk) = cut_to-tail_of all c chunk

-- Whatever chunks a command's output comes in, the tail is the last 16384 characters of them all, and it
-- is marked as truncated exactly if there are more.
pub append_all-tail : (chunks : List Text) → append_all chunks empty_tail ≡ tail_of (concat chunks)
append_all-tail chunks = append_all-from chunks []
  where
    append_all-from :
        (l : List Text) (all : Text) → append_all l (tail_of all) ≡ tail_of (all ++ concat l)
    append_all-from [] all = ap tail_of (sym (append-nil all))
    append_all-from (chunk ∷ l) all =
        ap (append_all l) (append-tail_of all chunk)
        ∙ append_all-from l (all ++ chunk)
        ∙ ap tail_of (append_assoc all chunk (concat l))
