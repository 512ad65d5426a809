-- ===== src/Tests/Logs.antt =====
-- A task's log at concrete inputs.
use tasknexus_client_agent.Prelude.{
  ℕ, min, pos, true, none, some, [], ◌∷◌, ◌≡◌, refl, arith, length, drop, inl,
}
use tasknexus_client_agent.Text.{Text, codes}
use tasknexus_client_agent.Utf8.{encode, encode_char}
use tasknexus_client_agent.Config.{default_config}
use tasknexus_client_agent.Client.Connection.{AgentClient, new_client}
use tasknexus_client_agent.Log.Writer.{new_writer}
use tasknexus_client_agent.Log.Chunk.{read_utf8_chunk}
use tasknexus_client_agent.Log.Chunk.Cut.{fit, read_utf8_chunk-text}
use tasknexus_client_agent.Log.State.{Now, TaskLogSyncState, new_state}
use tasknexus_client_agent.Log.Sync.{SyncEnv, sync_with_server}
use tasknexus_client_agent.Log.Sync.Honest.{IsHonest}
use tasknexus_client_agent.Log.Sync.Offsets.{sync_with_server-IsHonest}

abbrev noon : ℕ → Now
noon n = record { stamp = codes "12:00"; at = n }

abbrev a_log : TaskLogSyncState
a_log = new_state (pos 7) (codes "/tmp/7.log") [] (noon 0)

-- A log of which the server has three bytes of five.
abbrev behind : TaskLogSyncState
behind = record a_log {
  writer = record (new_writer []) { file = encode (codes "ab\n"); buffer = encode (codes "c\n") };
  committed_offset = 5;
  acked_offset = 3;
}

abbrev connected_client : AgentClient ℕ
connected_client = record (new_client (default_config none)) {
  connected = true;
  log_sender = some (record { items = []; closed = none });
}

abbrev later : SyncEnv
later = record { at = 1000; read_limit = some 4096 }

sync_with_server-IsHonest_example :
    IsHonest behind connected_client (sync_with_server later true true behind connected_client)
sync_with_server-IsHonest_example =
    sync_with_server-IsHonest later true true behind connected_client

-- A progress bar, which a carriage return overwrites.
abbrev progress : Text
progress = codes "0%\r100%"

abbrev euro : Text
euro = 0x20ac ∷ 97 ∷ []

behind_x : drop 1 (encode (120 ∷ euro)) ≡ encode euro
unfolding encode encode_char
behind_x = refl

read_utf8_chunk-text_example :
    read_utf8_chunk (some 4096) (encode (120 ∷ euro)) 1 3
    ≡ some (fit (min 4096 3) euro, length (encode (fit (min 4096 3) euro)))
read_utf8_chunk-text_example =
    read_utf8_chunk-text 4096 3 1 (encode (120 ∷ euro)) euro
      (inl (omega arith), (inl (omega arith), tt)) behind_x
