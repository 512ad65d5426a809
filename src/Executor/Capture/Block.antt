-- ===== src/Executor/Capture/Block.antt =====
-- A marked block of the standard output.
use tasknexus_client_agent.Prelude.{
  ℕ, suc, Bool, true, false, Option, none, some, [], ◌∷◌, ◌++◌, ◌≡◌, refl, sym, subst, ap, ap₂, ◌∙◌,
  if◌then◌else◌, last?, length, append-nil, Map, arith, or_else,
}
use tasknexus_client_agent.Text.{
  Text, split_once, split_once-append, strip_prefix, strip_prefix-append, trim,
}
use tasknexus_client_agent.Executor.Output.{finish}
use tasknexus_client_agent.Executor.Output.Tail.{tail_of}
use tasknexus_client_agent.Executor.Capture.{
  StdoutCapture, visible, structured_result, new_capture, trimmed, is_line_end,
  maybe_trim_leading_newline, push_visible, behind_newline, capture_result_from_hidden_buffer,
  end_block, process, process_chunk, result_begin_marker, result_end_marker, finish_capture,
}
use tasknexus_client_agent.Executor.Capture.Fuel.{process-fuel}
use tasknexus_client_agent.Executor.Capture.Shown.{IsShown, push_visible-IsShown}

no_marker : (p : ℕ) (ps : Text) (x : Text × Text) → split_once (p ∷ ps) [] ≡ some x → ⊥
unfolding split_once strip_prefix
no_marker p ps x h = cc

-- What is shown of the text behind a block: without the line end at its start if the block stood at the start
-- of a line.
abbrev pub behind_block : Bool → Text → Text
behind_block true text = or_else (behind_newline text) text
behind_block false text = text

module _ {V : Type 0} where
  push_visible-shown :
      (emitted chunk : Text) (c : StdoutCapture V)
      → (push_visible emitted chunk c).0 ≡ emitted ++ chunk
  unfolding push_visible
  push_visible-shown emitted [] c = sym (append-nil emitted)
  push_visible-shown emitted (d ∷ chunk) c = refl

  push_visible-result :
      (emitted chunk : Text) (c : StdoutCapture V)
      → (push_visible emitted chunk c).1.result ≡ c.result
  unfolding push_visible
  push_visible-result emitted [] c = refl
  push_visible-result emitted (d ∷ chunk) c = refl

  push_visible-mode :
      (emitted chunk : Text) (c : StdoutCapture V) → (push_visible emitted chunk c).1.mode ≡ c.mode
  unfolding push_visible
  push_visible-mode emitted [] c = refl
  push_visible-mode emitted (d ∷ chunk) c = refl

  -- Only the mark for the next line end changes.
  abbrev IsTrimmed : Text → StdoutCapture V → Text × StdoutCapture V → Type 0
  IsTrimmed text c r = (r.0 ≡ text) × (r.1.mode ≡ c.mode) × (r.1.result ≡ c.result)

  trimmed-IsTrimmed :
      (o : Option Text) (text : Text) (c : StdoutCapture V)
      → IsTrimmed (or_else o text) c (trimmed o text c)
  trimmed-IsTrimmed (some rest) text c = (refl, refl, refl)
  trimmed-IsTrimmed none [] c = (refl, refl, refl)
  trimmed-IsTrimmed none (d ∷ text) c = (refl, refl, refl)

  trim-IsTrimmed :
      (b : Bool) (text : Text) (c : StdoutCapture V)
      → c.suppress_next_leading_newline ≡ b
      → IsTrimmed (behind_block b text) c (maybe_trim_leading_newline text c)
  unfolding maybe_trim_leading_newline
  trim-IsTrimmed true text c h =
      subst
        (λ b.
          IsTrimmed (behind_block true text) c
            (if b then trimmed (behind_newline text) text c else (text, c)))
        (sym h) (trimmed-IsTrimmed (behind_newline text) text c)
  trim-IsTrimmed false text c h =
      subst (λ b. IsTrimmed text c (if b then trimmed (behind_newline text) text c else (text, c)))
        (sym h) (refl, refl, refl)

module _ {V : Type 0} (from_str : Text → Option (Map Text V)) where
  process-begin :
      (n : ℕ) (t before after emitted : Text) (c : StdoutCapture V)
      → c.mode ≡ visible
      → split_once result_begin_marker t ≡ some (before, after)
      → process from_str (suc n) t emitted c
        ≡ process from_str n after
            (push_visible emitted before c).0
            (record (push_visible emitted before c).1 {
              mode = structured_result;
              hidden_buffer = result_begin_marker;
            })
  unfolding process
  process-begin n [] before after emitted c m h = elim (no_marker _ _ _ h) [ ]
  process-begin n (d ∷ t) before after emitted c m h = rw (m, h) refl

  process-end :
      (n : ℕ) (t before after emitted : Text) (c : StdoutCapture V)
      → c.mode ≡ structured_result
      → split_once result_end_marker t ≡ some (before, after)
      → process from_str (suc n) t emitted c
        ≡ process from_str n
            (maybe_trim_leading_newline after (end_block from_str before c)).0
            emitted
            (maybe_trim_leading_newline after (end_block from_str before c)).1
  unfolding process
  process-end n [] before after emitted c m h = elim (no_marker _ _ _ h) [ ]
  process-end n (d ∷ t) before after emitted c m h = rw (m, h) refl

  process-open :
      (n : ℕ) (t emitted : Text) (c : StdoutCapture V)
      → c.mode ≡ structured_result
      → split_once result_end_marker t ≡ none
      → process from_str (suc n) t emitted c
        ≡ (emitted, record c { hidden_buffer = c.hidden_buffer ++ t })
  unfolding process
  process-open n [] emitted c m h =
      ap (λ b. (emitted, record c { hidden_buffer = b })) (sym (append-nil c.hidden_buffer))
  process-open n (d ∷ t) emitted c m h = rw (m, h) refl

  process-plain :
      (n : ℕ) (t emitted : Text) (c : StdoutCapture V)
      → c.mode ≡ visible
      → split_once result_begin_marker t ≡ none
      → process from_str (suc n) t emitted c ≡ push_visible emitted t c
  unfolding process push_visible
  process-plain n [] emitted c m h = refl
  process-plain n (d ∷ t) emitted c m h = rw (m, h) refl

  captured :
      (payload : Text) (c : StdoutCapture V)
      → c.result ≡ []
      → c.hidden_buffer ≡ result_begin_marker
      → end_block from_str payload c ≡ record c {
        result = or_else (from_str (trim payload)) [];
        hidden_buffer = [];
        mode = visible;
        suppress_next_leading_newline = is_line_end c.last_visible_char;
      }
  unfolding capture_result_from_hidden_buffer
  captured payload c r h = rw (r, h, strip_prefix-append result_begin_marker payload) refl

  process_chunk-visible :
      (chunk : Text) (c : StdoutCapture V)
      → c.suppress_next_leading_newline ≡ false
      → process_chunk from_str chunk c
        ≡ process from_str (suc (suc (suc (length chunk)))) chunk [] c
  unfolding process_chunk maybe_trim_leading_newline
  process_chunk-visible chunk c h =
      ap
        (λ b.
          let first = if b then trimmed (behind_newline chunk) chunk c else (chunk, c) in
          process from_str (length first.0) first.0 [] first.1)
        h
      ∙ process-fuel from_str (length chunk) (suc (suc (suc (length chunk)))) chunk [] c
          (omega arith) (omega arith)

  -- A text with one whole block in it, read while the output is shown and no result was found yet: the text before
  -- the block and the text behind it are shown, the latter without the line end at its start if
  -- the block stood at the start of a line, and nothing of the block; the result is what the
  -- block's text, trimmed, parses to, and none if it does not parse.
  pub process_chunk-block :
      (all chunk before rest payload after : Text) (c : StdoutCapture V)
      → IsShown all c
      → c.mode ≡ visible
      → c.suppress_next_leading_newline ≡ false
      → c.result ≡ []
      → split_once result_begin_marker chunk ≡ some (before, rest)
      → split_once result_end_marker rest ≡ some (payload, after)
      → split_once result_begin_marker (behind_block (is_line_end (last? (all ++ before))) after)
        ≡ none
      → ((process_chunk from_str chunk c).0
          ≡ before ++ behind_block (is_line_end (last? (all ++ before))) after)
        × ((process_chunk from_str chunk c).1.result ≡ or_else (from_str (trim payload)) [])
        × ((process_chunk from_str chunk c).1.mode ≡ visible)
  process_chunk-block all chunk before rest payload after c shown m s r b e n =
      let p = push_visible [] before c in
      let c1 = record p.1 { mode = structured_result; hidden_buffer = result_begin_marker } in
      let c2 = end_block from_str payload c1 in
      let is_c2 = captured payload c1 (push_visible-result [] before c ∙ r) refl in
      let d = is_line_end (last? (all ++ before)) in
      let line_end =
        ap (λ k. k.suppress_next_leading_newline) is_c2
        ∙ ap is_line_end (push_visible-IsShown all [] before c shown).1 in
      let t = trim-IsTrimmed d after c2 line_end in
      let q = maybe_trim_leading_newline after c2 in
      let steps =
        process_chunk-visible chunk c s
        ∙ process-begin (suc (suc (length chunk))) chunk before rest [] c m b
        ∙ process-end (suc (length chunk)) rest payload after p.0 c1 refl e
        ∙ process-plain (length chunk) q.0 p.0 q.1 (t.1 ∙ ap (λ k. k.mode) is_c2)
            (ap (split_once result_begin_marker) t.0 ∙ n) in
      (
        ap (λ x. x.0) steps
            ∙ push_visible-shown p.0 q.0 q.1
            ∙ ap₂ (λ x y. x ++ y) (push_visible-shown [] before c) t.0,
        ap (λ x. x.1.result) steps
            ∙ push_visible-result p.0 q.0 q.1
            ∙ t.2
            ∙ ap (λ k. k.result) is_c2,
        ap (λ x. x.1.mode) steps ∙ push_visible-mode p.0 q.0 q.1 ∙ t.1 ∙ ap (λ k. k.mode) is_c2,
      )

  -- A block that the output never ends is no result: it comes back, with its marker, as the end of the
  -- output.
  pub finish_capture-open :
      (decimal : ℕ → Text) (chunk before rest : Text)
      → split_once result_begin_marker chunk ≡ some (before, rest)
      → split_once result_end_marker rest ≡ none
      → finish_capture decimal (process_chunk from_str chunk (new_capture {V = V})).1
        ≡ (finish decimal (tail_of chunk), [])
  unfolding finish_capture
  finish_capture-open decimal chunk before rest b e =
      let c = new_capture {V = V} in
      let p = push_visible [] before c in
      let c1 = record p.1 { mode = structured_result; hidden_buffer = result_begin_marker } in
      let steps =
        process_chunk-visible chunk c refl
        ∙ process-begin (suc (suc (length chunk))) chunk before rest [] c refl b
        ∙ process-open (suc (length chunk)) rest p.0 c1 refl e in
      let shown = push_visible-IsShown [] [] before c (refl, refl) in
      let whole = result_begin_marker ++ rest in
      ap (λ x. finish_capture decimal x.1) steps
      ∙ ap₂ (λ o m. (finish decimal o, m))
          ((push_visible-IsShown before [] whole (record c1 { hidden_buffer = whole }) shown).0
            ∙ ap tail_of (sym (split_once-append result_begin_marker chunk before rest b)))
          (push_visible-result [] whole (record c1 { hidden_buffer = whole })
            ∙ push_visible-result [] before c)
