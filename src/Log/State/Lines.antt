-- ===== src/Log/State/Lines.antt =====
-- What a line of output becomes in the log, with the carriage returns that overwrite it.
use tasknexus_client_agent.Prelude.{◌+◌, ◌%◌, ◌^◌, false, [], ◌∷◌, ◌++◌, ◌≡◌, eqb, length}
use tasknexus_client_agent.Text.{Text}
use tasknexus_client_agent.Utf8.{encode}
use tasknexus_client_agent.Log.Writer.{Writer, Done, ok, written}
use tasknexus_client_agent.Log.State.{TaskLogSyncState, newline}
use tasknexus_client_agent.Log.State.Typing.{IsFresh}

-- What a newline does to a state whose next line is `visible`.
abbrev pub Commits : Text → TaskLogSyncState → Done × TaskLogSyncState → Type 0
Commits text s r =
    (r.0 ≡ ok)
    × IsFresh r.1
    × (written r.1.writer ≡ written s.writer ++ encode (text ++ newline ∷ []))
    × (r.1.committed_offset
        ≡ (s.committed_offset + length (encode (text ++ newline ∷ []))) % 2 ^ 64)

abbrev appended : Text → TaskLogSyncState → TaskLogSyncState
appended text s = record s {
  writer = record (s.writer) { buffer = s.writer.buffer ++ encode (text ++ newline ∷ []) };
  committed_offset = (s.committed_offset + length (encode (text ++ newline ∷ []))) % 2 ^ 64;
}

-- No newline in a text.
abbrev pub Plain : Text → Type 0
Plain [] = Unit
Plain (ch ∷ t) = (eqb ch newline ≡ false) × Plain t
