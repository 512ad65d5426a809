-- ===== src/Log/Writer.antt =====
-- `BufWriter<File>` as agent/src/main.rs uses it: bytes wait in the buffer until they are flushed to
-- the file. How the next writes end is chosen from outside; where nothing is chosen they succeed.
use tasknexus_client_agent.Prelude.{
  ℕ, ◌≡◌, ap, ◌∙◌, append-nil, List, [], ◌∷◌, ◌++◌, append_assoc, take, drop, take-append-drop,
}
use tasknexus_client_agent.Utf8.{Bytes}

-- `io::Result<()>`; the error is only ever logged.
pub data Done : Type 0 where
  ok failed : Done

-- A write succeeds, or fails after so many bytes.
pub data Fault : Type 0 where
  fine : Fault
  fails_after : ℕ → Fault

pub record Writer : Type 0 where
  pub file : Bytes
  pub buffer : Bytes
  pub faults : List Fault

abbrev pub new_writer : List Fault → Writer
new_writer faults = record { file = []; buffer = []; faults = faults }

abbrev pub write_with : List Fault → Bytes → Writer → Done × Writer
write_with [] bytes w = (ok, record w { buffer = w.buffer ++ bytes })
write_with (fine ∷ faults) bytes w = (ok, record w { buffer = w.buffer ++ bytes; faults = faults })
write_with (fails_after n ∷ faults) bytes w =
    (failed, record w { buffer = w.buffer ++ take n bytes; faults = faults })

-- `write_all`
unfoldable pub write_all : Bytes → Writer → Done × Writer
write_all bytes w = write_with w.faults bytes w

abbrev pub flush_with : List Fault → Writer → Done × Writer
flush_with [] w = (ok, record w { file = w.file ++ w.buffer; buffer = [] })
flush_with (fine ∷ faults) w =
    (ok, record { file = w.file ++ w.buffer; buffer = []; faults = faults })
flush_with (fails_after n ∷ faults) w =
    (failed, record { file = w.file ++ take n w.buffer; buffer = drop n w.buffer; faults = faults })

-- `flush`
unfoldable pub flush : Writer → Done × Writer
flush w = flush_with w.faults w

-- Everything that was written, flushed or not.
abbrev pub written : Writer → Bytes
written w = w.file ++ w.buffer

flush_with-written : (f : List Fault) (w : Writer) → written (flush_with f w).1 ≡ written w
flush_with-written [] w =
    append_assoc w.file w.buffer [] ∙ ap (λ b. w.file ++ b) (append-nil w.buffer)
flush_with-written (fine ∷ f) w =
    append_assoc w.file w.buffer [] ∙ ap (λ b. w.file ++ b) (append-nil w.buffer)
flush_with-written (fails_after n ∷ f) w =
    append_assoc w.file (take n w.buffer) (drop n w.buffer)
    ∙ ap (λ b. w.file ++ b) (take-append-drop n w.buffer)

-- A flush, whether it succeeds or not, neither loses nor adds a byte.
pub written-flush : (w : Writer) → written (flush w).1 ≡ written w
unfolding flush
written-flush w = flush_with-written w.faults w
