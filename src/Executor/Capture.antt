-- ===== src/Executor/Capture.antt =====
-- `StdoutCapture` of agent/src/executor.rs: the structured result is cut out of the standard output.
pub mod Shown
pub mod Fuel
pub mod Block
use tasknexus_client_agent.Prelude.{
  ℕ, zero, suc, Bool, true, false, ◌||◌, Option, none, some, List, [], ◌∷◌, ◌++◌, if◌then◌else◌,
  eqb, is_empty, last?, length, Map, or_else,
}
use tasknexus_client_agent.Text.{Text, codes, split_once, strip_prefix, trim}
use tasknexus_client_agent.Executor.Output.{OutputTail, empty_tail, append, finish}

abbrev pub result_begin_marker : Text
result_begin_marker = codes "##TASKNEXUS_RESULT_BEGIN##"

abbrev pub result_end_marker : Text
result_end_marker = codes "##TASKNEXUS_RESULT_END##"

pub data StdoutCaptureMode : Type 0 where
  visible structured_result : StdoutCaptureMode

pub record StdoutCapture (V : Type 0) : Type 0 where
  pub visible_output : OutputTail
  pub hidden_buffer : Text
  pub mode : StdoutCaptureMode
  pub result : Map Text V
  pub last_visible_char : Option ℕ
  pub suppress_next_leading_newline : Bool

-- `\n` or `\r`
abbrev pub is_line_end : Option ℕ → Bool
is_line_end none = false
is_line_end (some c) = eqb c 10 || eqb c 13

abbrev pub or_try : Option Text → Option Text → Option Text
or_try none o = o
or_try (some rest) o = some rest

-- The text behind a line end at its start.
abbrev pub behind_newline : Text → Option Text
behind_newline text =
    or_try (strip_prefix (codes "\r\n") text)
      (or_try (strip_prefix (codes "\n") text) (strip_prefix (codes "\r") text))

-- A turn of the loop of `process_chunk` breaks, or goes on with what remains.
pub data Turn (V : Type 0) : Type 0 where
  stop : (emitted : Text) (capture : StdoutCapture V) → Turn V
  next : (remaining emitted : Text) (capture : StdoutCapture V) → Turn V

module _ {V : Type 0} where
  abbrev pub new_capture : StdoutCapture V
  new_capture = record {
    visible_output = empty_tail;
    hidden_buffer = [];
    mode = visible;
    result = [];
    last_visible_char = none;
    suppress_next_leading_newline = false;
  }

  abbrev pub trimmed : Option Text → Text → StdoutCapture V → Text × StdoutCapture V
  trimmed (some rest) text c = (rest, record c { suppress_next_leading_newline = false })
  trimmed none [] c = ([], c)
  trimmed none (d ∷ text) c = (d ∷ text, record c { suppress_next_leading_newline = false })

  unfoldable pub maybe_trim_leading_newline : Text → StdoutCapture V → Text × StdoutCapture V
  maybe_trim_leading_newline text c =
      if c.suppress_next_leading_newline then trimmed (behind_newline text) text c else (text, c)

  unfoldable pub push_visible : Text → Text → StdoutCapture V → Text × StdoutCapture V
  push_visible emitted chunk c = if is_empty chunk then (emitted, c) else (
    emitted ++ chunk,
    record c { visible_output = append chunk c.visible_output; last_visible_char = last? chunk },
  )

  abbrev pub then_process :
      (Text → Text → StdoutCapture V → Text × StdoutCapture V) → Turn V → Text × StdoutCapture V
  then_process rest_of (stop shown after) = (shown, after)
  then_process rest_of (next rest shown after) = rest_of rest shown after

module _ {V : Type 0} (from_str : Text → Option (Map Text V)) where
  -- `from_str` is `serde_json::from_str`, without its error.
  unfoldable pub capture_result_from_hidden_buffer : StdoutCapture V → StdoutCapture V
  capture_result_from_hidden_buffer c =
      let json_str =
        trim (or_else (strip_prefix result_begin_marker c.hidden_buffer) c.hidden_buffer) in
      if is_empty c.result then record c { result = or_else (from_str json_str) [] } else c

  abbrev pub visible_turn : Option (Text × Text) → Text → Text → StdoutCapture V → Turn V
  visible_turn (some (before, after)) remaining emitted c =
      let pushed = push_visible emitted before c in
      next after pushed.0
        (record pushed.1 { mode = structured_result; hidden_buffer = result_begin_marker })
  visible_turn none remaining emitted c =
      let pushed = push_visible emitted remaining c in stop pushed.0 pushed.1

  abbrev pub end_block : Text → StdoutCapture V → StdoutCapture V
  end_block before c =
      let captured =
        capture_result_from_hidden_buffer
          (record c { hidden_buffer = c.hidden_buffer ++ before }) in
      record captured {
        hidden_buffer = [];
        mode = visible;
        suppress_next_leading_newline = is_line_end captured.last_visible_char;
      }

  abbrev pub hidden_turn : Option (Text × Text) → Text → Text → StdoutCapture V → Turn V
  hidden_turn (some (before, after)) remaining emitted c =
      let rest = maybe_trim_leading_newline after (end_block before c) in next rest.0 emitted rest.1
  hidden_turn none remaining emitted c =
      stop emitted (record c { hidden_buffer = c.hidden_buffer ++ remaining })

  abbrev pub turn_in : StdoutCaptureMode → Text → Text → StdoutCapture V → Turn V
  turn_in visible remaining emitted c =
      visible_turn (split_once result_begin_marker remaining) remaining emitted c
  turn_in structured_result remaining emitted c =
      hidden_turn (split_once result_end_marker remaining) remaining emitted c

  -- The loop, on fuel.
  unfoldable pub process : ℕ → Text → Text → StdoutCapture V → Text × StdoutCapture V
  unfolding maybe_trim_leading_newline push_visible capture_result_from_hidden_buffer
  process zero remaining emitted c = (emitted, c)
  process (suc fuel) [] emitted c = (emitted, c)
  process (suc fuel) (d ∷ remaining) emitted c =
      then_process (λ rest shown after. process fuel rest shown after)
        (turn_in c.mode (d ∷ remaining) emitted c)

  -- What is shown of the chunk. Each turn takes a marker off the text, so its length is fuel enough.
  unfoldable pub process_chunk : Text → StdoutCapture V → Text × StdoutCapture V
  unfolding process
  process_chunk chunk c =
      let first = maybe_trim_leading_newline chunk c in process (length first.0) first.0 [] first.1

module _ {V : Type 0} where
  abbrev pub restored_in : StdoutCaptureMode → StdoutCapture V → StdoutCapture V
  restored_in visible c = c
  restored_in structured_result c =
      if is_empty c.hidden_buffer
      then c
      else record (push_visible [] c.hidden_buffer c).1 { hidden_buffer = []; mode = visible }

  abbrev pub restored : StdoutCapture V → StdoutCapture V
  restored c = restored_in c.mode c

  -- `finish`
  unfoldable pub finish_capture : (ℕ → Text) → StdoutCapture V → Text × Map Text V
  unfolding push_visible
  finish_capture decimal c = (finish decimal (restored c).visible_output, (restored c).result)
