-- ===== src/Executor/Stream.antt =====
-- How agent/src/executor.rs reads what a command writes: line by line.
pub mod Lines
use tasknexus_client_agent.Prelude.{
  ℕ, Bool, ◌||◌, Option, none, some, List, [], ◌∷◌, ◌++◌, if◌then◌else◌, eqb, is_empty, Map,
}
use tasknexus_client_agent.Text.{Text}
use tasknexus_client_agent.Utf8.{Bytes, from_utf8, from_utf8_lossy}

abbrev pub or_lossy : Option Text → Bytes → Text
or_lossy (some s) bytes = s
or_lossy none bytes = from_utf8_lossy bytes

-- `decode_bytes`, not on Windows
unfoldable pub decode_bytes : Bytes → Text
decode_bytes bytes = or_lossy (from_utf8 bytes) bytes

abbrev pub ends_line : ℕ → Bool
ends_line byte = eqb byte 10 || eqb byte 13

-- The chunks that `incoming` completes, and what is pending then.
unfoldable pub split_stream_chunks : Bytes → Bytes → List Text × Bytes
split_stream_chunks pending [] = ([], pending)
split_stream_chunks pending (byte ∷ incoming) =
    let line = pending ++ byte ∷ [] in
    let from_here = split_stream_chunks [] incoming in
    let going_on = split_stream_chunks line incoming in
    if ends_line byte then (decode_bytes line ∷ from_here.0, from_here.1) else going_on

-- What is left at the end, if anything.
unfoldable pub flush_stream_buffer : Bytes → Option Text
flush_stream_buffer pending = if is_empty pending then none else some (decode_bytes pending)

abbrev pub to_list : Option Text → List Text
to_list none = []
to_list (some t) = t ∷ []

-- The chunks of the reads until the stream ends or a read fails.
unfoldable pub read_chunks : Bytes → List Bytes → List Text
unfolding split_stream_chunks flush_stream_buffer
read_chunks pending [] = to_list (flush_stream_buffer pending)
read_chunks pending (read ∷ reads) =
    let split = split_stream_chunks pending read in split.0 ++ read_chunks split.1 reads
