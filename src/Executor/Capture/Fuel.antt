-- ===== src/Executor/Capture/Fuel.antt =====
-- The turns of the loop of `process_chunk`.
use tasknexus_client_agent.Prelude.{
  ℕ, zero, suc, ◌≤◌, ◌<◌, Option, none, some, [], ◌∷◌, ◌++◌, ◌≡◌, refl, ap, ◌∙◌, if-both, length,
  length-append, Map, arith,
}
use tasknexus_client_agent.Text.{
  Text, codes, split_once, split_once-append, strip_prefix, strip_prefix_iff,
}
use tasknexus_client_agent.Executor.Capture.{
  StdoutCapture, StdoutCaptureMode, visible, structured_result, Turn, stop, next, trimmed,
  maybe_trim_leading_newline, behind_newline, or_try, visible_turn, hidden_turn, turn_in, end_block,
  then_process, process, result_begin_marker, result_end_marker, process_chunk,
}

abbrev IsShorter : Text → Option Text → Type 0
IsShorter t none = Unit
IsShorter t (some rest) = length rest ≤ length t

strip_prefix-IsShorter : (p t : Text) (o : Option Text) → strip_prefix p t ≡ o → IsShorter t o
strip_prefix-IsShorter p t none h = tt
strip_prefix-IsShorter p t (some rest) h =
    let e = ap length (strip_prefix_iff p t rest h) ∙ length-append p rest in omega arith

or_try-IsShorter :
    (t : Text) (o o' : Option Text) → IsShorter t o → IsShorter t o' → IsShorter t (or_try o o')
or_try-IsShorter t none o' h k = k
or_try-IsShorter t (some rest) o' h k = h

behind_newline-IsShorter : (t : Text) → IsShorter t (behind_newline t)
behind_newline-IsShorter t =
    or_try-IsShorter t (strip_prefix (codes "\r\n") t) _
      (strip_prefix-IsShorter (codes "\r\n") t _ refl)
      (or_try-IsShorter t (strip_prefix (codes "\n") t) _
        (strip_prefix-IsShorter (codes "\n") t _ refl)
        (strip_prefix-IsShorter (codes "\r") t _ refl))

split_once-shorter :
    (p t before after : Text)
    → 0 < length p
    → split_once p t ≡ some (before, after)
    → length after < length t
split_once-shorter p t before after h e =
    let l = ap length (split_once-append p t before after e) in
    let m = length-append before (p ++ after) in let n = length-append p after in omega arith

module _ {V : Type 0} where
  length-trimmed :
      (t : Text) (o : Option Text) (c : StdoutCapture V)
      → IsShorter t o
      → length (trimmed o t c).0 ≤ length t
  length-trimmed t (some rest) c h = h
  length-trimmed [] none c h = omega arith
  length-trimmed (d ∷ t) none c h = omega arith

  length-trim :
      (t : Text) (c : StdoutCapture V) → length (maybe_trim_leading_newline t c).0 ≤ length t
  unfolding maybe_trim_leading_newline
  length-trim t c =
      if-both (λ (r : Text × StdoutCapture V). length r.0 ≤ length t)
        c.suppress_next_leading_newline
        (λ b. length-trimmed t (behind_newline t) c (behind_newline-IsShorter t)) (λ b. omega arith)

module _ {V : Type 0} (from_str : Text → Option (Map Text V)) where
  -- A turn that goes on leaves less.
  abbrev Leaves : ℕ → Turn V → Type 0
  Leaves n (stop shown after) = Unit
  Leaves n (next rest shown after) = length rest < n

  visible_turn-Leaves :
      (o : Option (Text × Text)) (t emitted : Text) (c : StdoutCapture V)
      → split_once result_begin_marker t ≡ o
      → Leaves (length t) (visible_turn from_str o t emitted c)
  visible_turn-Leaves none t emitted c h = tt
  visible_turn-Leaves (some (before, after)) t emitted c h =
      split_once-shorter result_begin_marker t before after (omega arith) h

  hidden_turn-Leaves :
      (o : Option (Text × Text)) (t emitted : Text) (c : StdoutCapture V)
      → split_once result_end_marker t ≡ o
      → Leaves (length t) (hidden_turn from_str o t emitted c)
  hidden_turn-Leaves none t emitted c h = tt
  hidden_turn-Leaves (some (before, after)) t emitted c h =
      let k = split_once-shorter result_end_marker t before after (omega arith) h in
      let l = length-trim after (end_block from_str before c) in omega arith

  turn-Leaves :
      (m : StdoutCaptureMode) (t emitted : Text) (c : StdoutCapture V)
      → Leaves (length t) (turn_in from_str m t emitted c)
  turn-Leaves visible t emitted c =
      visible_turn-Leaves (split_once result_begin_marker t) t emitted c refl
  turn-Leaves structured_result t emitted c =
      hidden_turn-Leaves (split_once result_end_marker t) t emitted c refl

  then_process-same :
      (k : ℕ) (t : Turn V) (f g : Text → Text → StdoutCapture V → Text × StdoutCapture V)
      → Leaves k t
      → ((rest shown : Text) (after : StdoutCapture V)
          → length rest < k
          → f rest shown after ≡ g rest shown after)
      → then_process f t ≡ then_process g t
  then_process-same k (stop shown after) f g l h = refl
  then_process-same k (next rest shown after) f g l h = h rest shown after l

  -- With at least as much fuel as the text has characters, the fuel makes no difference.
  pub process-fuel :
      (n m : ℕ) (t emitted : Text) (c : StdoutCapture V)
      → length t ≤ n
      → length t ≤ m
      → process from_str n t emitted c ≡ process from_str m t emitted c
  unfolding process
  process-fuel zero zero t emitted c h k = refl
  process-fuel zero (suc m) [] emitted c h k = refl
  process-fuel zero (suc m) (d ∷ t) emitted c h k = elim h [ ]
  process-fuel (suc n) zero [] emitted c h k = refl
  process-fuel (suc n) zero (d ∷ t) emitted c h k = elim k [ ]
  process-fuel (suc n) (suc m) [] emitted c h k = refl
  process-fuel (suc n) (suc m) (d ∷ t) emitted c h k =
      then_process-same (length (d ∷ t)) (turn_in from_str c.mode (d ∷ t) emitted c)
        (λ rest shown after. process from_str n rest shown after)
        (λ rest shown after. process from_str m rest shown after)
        (turn-Leaves c.mode (d ∷ t) emitted c)
        (λ rest shown after l. process-fuel n m rest shown after (omega arith) (omega arith))

  -- The loop of the source, without fuel: it is over when nothing remains, when a turn breaks, or when it
  -- is over behind a turn that goes on. An endless loop has no such derivation.
  pub data Loops : Text → Text → StdoutCapture V → Text × StdoutCapture V → Type 0 where
    is_over : (emitted : Text) (c : StdoutCapture V) → Loops [] emitted c (emitted, c)
    breaks :
        (d : ℕ) (remaining emitted shown : Text) (c after : StdoutCapture V)
        → turn_in from_str c.mode (d ∷ remaining) emitted c ≡ stop shown after
        → Loops (d ∷ remaining) emitted c (shown, after)
    goes_on :
        (d : ℕ) (remaining emitted rest shown : Text) (c after : StdoutCapture V)
        (out : Text × StdoutCapture V)
        → turn_in from_str c.mode (d ∷ remaining) emitted c ≡ next rest shown after
        → Loops rest shown after out
        → Loops (d ∷ remaining) emitted c out

  turn-Loops :
      (d : ℕ) (remaining emitted : Text) (c : StdoutCapture V) (t : Turn V)
      (rest_of : Text → Text → StdoutCapture V → Text × StdoutCapture V)
      → turn_in from_str c.mode (d ∷ remaining) emitted c ≡ t
      → Leaves (length (d ∷ remaining)) t
      → ((rest shown : Text) (after : StdoutCapture V)
          → length rest < length (d ∷ remaining)
          → Loops rest shown after (rest_of rest shown after))
      → Loops (d ∷ remaining) emitted c (then_process rest_of t)
  turn-Loops d remaining emitted c (stop shown after) rest_of e l h =
      breaks d remaining emitted shown c after e
  turn-Loops d remaining emitted c (next rest shown after) rest_of e l h =
      goes_on d remaining emitted rest shown c after (rest_of rest shown after) e
        (h rest shown after l)

  process-Loops :
      (n : ℕ) (t emitted : Text) (c : StdoutCapture V)
      → length t ≤ n
      → Loops t emitted c (process from_str n t emitted c)
  unfolding process
  process-Loops zero [] emitted c h = is_over emitted c
  process-Loops zero (d ∷ t) emitted c h = elim h [ ]
  process-Loops (suc n) [] emitted c h = is_over emitted c
  process-Loops (suc n) (d ∷ t) emitted c h =
      turn-Loops d t emitted c (turn_in from_str c.mode (d ∷ t) emitted c)
        (λ rest shown after. process from_str n rest shown after) refl
        (turn-Leaves c.mode (d ∷ t) emitted c)
        (λ rest shown after l. process-Loops n rest shown after (omega arith))

  -- Whatever the chunk and the state, the loop of `process_chunk` comes to its end, at what
  -- `process_chunk` gives.
  pub process_chunk-Loops :
      (chunk : Text) (c : StdoutCapture V)
      → let first = maybe_trim_leading_newline chunk c in
        Loops first.0 [] first.1 (process_chunk from_str chunk c)
  unfolding process_chunk
  process_chunk-Loops chunk c =
      let first = maybe_trim_leading_newline chunk c in
      process-Loops (length first.0) first.0 [] first.1 (omega arith)
