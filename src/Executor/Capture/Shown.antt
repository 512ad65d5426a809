-- ===== src/Executor/Capture/Shown.antt =====
-- What `StdoutCapture` shows, and what it keeps.
use tasknexus_client_agent.Prelude.{
  ℕ, zero, suc, Option, none, some, List, [], ◌∷◌, ◌++◌, ◌≡◌, refl, sym, subst, ap, ◌∙◌, if-both,
  is_empty, last?, length, append-nil, append_assoc, Map,
}
use tasknexus_client_agent.Text.{Text, split_once}
use tasknexus_client_agent.Executor.Output.{append}
use tasknexus_client_agent.Executor.Output.Tail.{tail_of, append-tail_of}
use tasknexus_client_agent.Executor.Capture.{
  StdoutCapture, StdoutCaptureMode, visible, structured_result, Turn, stop, next, trimmed,
  maybe_trim_leading_newline, push_visible, behind_newline, capture_result_from_hidden_buffer,
  visible_turn, hidden_turn, turn_in, end_block, then_process, process, process_chunk,
  result_begin_marker, result_end_marker,
}

last?-append : (all : Text) (c : ℕ) (chunk : Text) → last? (all ++ c ∷ chunk) ≡ last? (c ∷ chunk)
last?-append [] c chunk = refl
last?-append (a ∷ []) c chunk = refl
last?-append (a ∷ b ∷ all) c chunk = last?-append (b ∷ all) c chunk

module _ {V : Type 0} where
  -- Everything that was shown: its end is kept, and its last character is known.
  abbrev pub IsShown : Text → StdoutCapture V → Type 0
  IsShown all c = (c.visible_output ≡ tail_of all) × (c.last_visible_char ≡ last? all)

  -- What a step that showed `emitted` already shows more.
  abbrev pub Shows : Text → Text → Text × StdoutCapture V → Type 0
  Shows all emitted r = (new : Text) × (r.0 ≡ emitted ++ new) × IsShown (all ++ new) r.1

  Shows-nothing :
      (all emitted : Text) (c : StdoutCapture V) → IsShown all c → Shows all emitted (emitted, c)
  Shows-nothing all emitted c h =
      ([], sym (append-nil emitted), subst (λ a. IsShown a c) (sym (append-nil all)) h)

  push_visible-Shows :
      (all emitted chunk : Text) (c : StdoutCapture V)
      → IsShown all c
      → Shows all emitted (push_visible emitted chunk c)
  unfolding push_visible
  push_visible-Shows all emitted [] c h = Shows-nothing all emitted c h
  push_visible-Shows all emitted (d ∷ chunk) c h = (
    d ∷ chunk,
    refl,
    (ap (append (d ∷ chunk)) h.0 ∙ append-tail_of all (d ∷ chunk), sym (last?-append all d chunk)),
  )

  pub push_visible-IsShown :
      (all emitted chunk : Text) (c : StdoutCapture V)
      → IsShown all c
      → IsShown (all ++ chunk) (push_visible emitted chunk c).1
  unfolding push_visible
  push_visible-IsShown all emitted [] c h = subst (λ a. IsShown a c) (sym (append-nil all)) h
  push_visible-IsShown all emitted (d ∷ chunk) c h =
      (ap (append (d ∷ chunk)) h.0 ∙ append-tail_of all (d ∷ chunk), sym (last?-append all d chunk))

  trimmed-IsShown :
      (o : Option Text) (all text : Text) (c : StdoutCapture V)
      → IsShown all c
      → IsShown all (trimmed o text c).1
  trimmed-IsShown (some rest) all text c h = h
  trimmed-IsShown none all [] c h = h
  trimmed-IsShown none all (d ∷ text) c h = h

  trim-IsShown :
      (all text : Text) (c : StdoutCapture V)
      → IsShown all c
      → IsShown all (maybe_trim_leading_newline text c).1
  unfolding maybe_trim_leading_newline
  trim-IsShown all text c h =
      if-both (λ (r : Text × StdoutCapture V). IsShown all r.1) c.suppress_next_leading_newline
        (λ b. trimmed-IsShown (behind_newline text) all text c h) (λ b. h)

module _ {V : Type 0} (from_str : Text → Option (Map Text V)) where
  capture-IsShown :
      (all : Text) (c : StdoutCapture V)
      → IsShown all c
      → IsShown all (capture_result_from_hidden_buffer from_str c)
  unfolding capture_result_from_hidden_buffer
  capture-IsShown all c h = if-both (IsShown all) (is_empty c.result) (λ b. h) (λ b. h)

  -- A turn shows more, and leaves a shorter text.
  abbrev TurnShows : Text → Text → Text → Turn V → Type 0
  TurnShows all remaining emitted (stop shown after) = Shows all emitted (shown, after)
  TurnShows all remaining emitted (next rest shown after) = Shows all emitted (shown, after)

  visible_turn-Shows :
      (o : Option (Text × Text)) (all remaining emitted : Text) (c : StdoutCapture V)
      → IsShown all c
      → TurnShows all remaining emitted (visible_turn from_str o remaining emitted c)
  visible_turn-Shows (some (before, after)) all remaining emitted c h =
      push_visible-Shows all emitted before c h
  visible_turn-Shows none all remaining emitted c h = push_visible-Shows all emitted remaining c h

  hidden_turn-Shows :
      (o : Option (Text × Text)) (all remaining emitted : Text) (c : StdoutCapture V)
      → IsShown all c
      → TurnShows all remaining emitted (hidden_turn from_str o remaining emitted c)
  hidden_turn-Shows (some (before, after)) all remaining emitted c h =
      Shows-nothing all emitted (maybe_trim_leading_newline after (end_block from_str before c)).1 (
        trim-IsShown all after (end_block from_str before c)
          (capture-IsShown all (record c { hidden_buffer = c.hidden_buffer ++ before }) h))
  hidden_turn-Shows none all remaining emitted c h =
      Shows-nothing all emitted (record c { hidden_buffer = c.hidden_buffer ++ remaining }) h

  turn-Shows :
      (m : StdoutCaptureMode) (all remaining emitted : Text) (c : StdoutCapture V)
      → IsShown all c
      → TurnShows all remaining emitted (turn_in from_str m remaining emitted c)
  turn-Shows visible all remaining emitted c h =
      visible_turn-Shows (split_once result_begin_marker remaining) all remaining emitted c h
  turn-Shows structured_result all remaining emitted c h =
      hidden_turn-Shows (split_once result_end_marker remaining) all remaining emitted c h

  turn_then-Shows :
      (all remaining emitted : Text) (t : Turn V)
      (rest_of : Text → Text → StdoutCapture V → Text × StdoutCapture V)
      → TurnShows all remaining emitted t
      → ((all' rest shown : Text) (after : StdoutCapture V)
          → IsShown all' after
          → Shows all' shown (rest_of rest shown after))
      → Shows all emitted (then_process rest_of t)
  turn_then-Shows all remaining emitted (stop shown after) rest_of s rec = s
  turn_then-Shows all remaining emitted (next rest shown after) rest_of (new, e, k) rec =
      let more = rec (all ++ new) rest shown after k in
      (
        new ++ more.0,
        more.1 ∙ ap (λ t. t ++ more.0) e ∙ append_assoc emitted new more.0,
        subst (λ a. IsShown a (rest_of rest shown after).1) (append_assoc all new more.0) more.2,
      )

  process-Shows :
      (fuel : ℕ) (all remaining emitted : Text) (c : StdoutCapture V)
      → IsShown all c
      → Shows all emitted (process from_str fuel remaining emitted c)
  unfolding process
  process-Shows zero all remaining emitted c h = Shows-nothing all emitted c h
  process-Shows (suc fuel) all [] emitted c h = Shows-nothing all emitted c h
  process-Shows (suc fuel) all (d ∷ remaining) emitted c h =
      turn_then-Shows all (d ∷ remaining) emitted
        (turn_in from_str c.mode (d ∷ remaining) emitted c)
        (λ rest shown after. process from_str fuel rest shown after)
        (turn-Shows c.mode all (d ∷ remaining) emitted c h)
        (λ all' rest shown after k. process-Shows fuel all' rest shown after k)

  pub process_chunk-IsShown :
      (all chunk : Text) (c : StdoutCapture V)
      → IsShown all c
      → IsShown (all ++ (process_chunk from_str chunk c).0) (process_chunk from_str chunk c).1
  unfolding process_chunk
  process_chunk-IsShown all chunk c h =
      let first = maybe_trim_leading_newline chunk c in
      let s = process-Shows (length first.0) all first.0 [] first.1 (trim-IsShown all chunk c h) in
      subst (λ t. IsShown (all ++ t) (process from_str (length first.0) first.0 [] first.1).1)
        (sym s.1) s.2

  -- The chunks of a command's output, one behind the other: what is shown of all of them.
  abbrev pub process_chunks : List Text → StdoutCapture V → Text × StdoutCapture V
  process_chunks [] c = ([], c)
  process_chunks (chunk ∷ chunks) c =
      let first = process_chunk from_str chunk c in
      let rest = process_chunks chunks first.1 in (first.0 ++ rest.0, rest.1)

  -- What is hidden of a block that has not ended, its marker first.
  abbrev pub unended_in : StdoutCaptureMode → StdoutCapture V → Text
  unended_in visible c = []
  unended_in structured_result c = c.hidden_buffer
