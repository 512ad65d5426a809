-- ===== src/Executor/Output.antt =====
-- `OutputTail` of agent/src/executor.rs: the end of what a command writes.
pub mod Tail
use tasknexus_client_agent.Prelude.{
  ℕ, ◌-◌, ◌*◌, Bool, true, false, [], ◌∷◌, ◌++◌, if◌then◌else◌, leb, is_empty, length, drop,
}
use tasknexus_client_agent.Text.{Text, codes}

abbrev pub max_captured_output_chars : ℕ
max_captured_output_chars = 16 * 1024

pub record OutputTail : Type 0 where
  pub text : Text
  pub truncated : Bool

abbrev pub empty_tail : OutputTail
empty_tail = record { text = []; truncated = false }

abbrev pub cut_to : ℕ → Text → OutputTail → OutputTail
cut_to total_chars text o =
    if leb total_chars max_captured_output_chars
    then record o { text = text }
    else record { text = drop (total_chars - max_captured_output_chars) text; truncated = true }

unfoldable pub append : Text → OutputTail → OutputTail
append chunk o = if is_empty chunk then o else cut_to (length (o.text ++ chunk)) (o.text ++ chunk) o

-- `decimal` writes a number; the text is that of `format!`.
unfoldable pub finish : (ℕ → Text) → OutputTail → Text
finish decimal o =
    if o.truncated
    then codes "[output truncated, showing last "
      ++ (decimal max_captured_output_chars ++ (codes " chars]\n" ++ o.text))
    else o.text
