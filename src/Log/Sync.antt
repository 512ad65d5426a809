-- ===== src/Log/Sync.antt =====
-- `TaskLogSyncState` of agent/src/main.rs: bringing the log to the server.
pub mod Offsets
pub mod Quiet
pub mod Honest
use tasknexus_client_agent.Prelude.{
  ℕ, ◌+◌, ◌-◌, ◌*◌, ◌%◌, ◌^◌, Bool, true, false, ◌&&◌, ◌||◌, not, Option, none, some, List, [], ◌∷◌,
  if◌then◌else◌, eqb, ltb, leb, is_some, is_empty,
}
use tasknexus_client_agent.Text.{Text}
use tasknexus_client_agent.Error.{Result}
use tasknexus_client_agent.Client.Connection.{
  AgentClient, Step, get_task_log_ack, send_task_log_append, send_task_log_active,
  send_task_log_active_clear,
}
use tasknexus_client_agent.Log.Writer.{Writer, Done, ok, failed, flush}
use tasknexus_client_agent.Log.Chunk.{max_log_chunk_bytes, read_utf8_chunk}
use tasknexus_client_agent.Log.State.{
  TaskLogSyncState, InflightAppend, PendingActiveEvent, set, clear, VisibleLine,
}

abbrev pub log_append_interval_ms : ℕ
log_append_interval_ms = 200

abbrev pub log_active_debounce_ms : ℕ
log_active_debounce_ms = 125

abbrev pub log_append_ack_timeout_ms : ℕ
log_append_ack_timeout_ms = 1000

-- What a call of `sync_with_server` finds: the clock in milliseconds, and how a read of the log
-- file ends. A call reads the file once at most.
pub record SyncEnv : Type 0 where
  pub at : ℕ
  pub read_limit : Option ℕ

-- Whether the call returned `Ok`, the log's state and the client's.
abbrev pub Synced : Type 0 → Type 0
Synced V = Done × TaskLogSyncState × AgentClient V

abbrev pub saturating_sub : ℕ → ℕ → ℕ
saturating_sub a b = a - b

-- `elapsed()`, which never is negative.
abbrev pub elapsed : SyncEnv → ℕ → ℕ
elapsed env since = env.at - since

unfoldable pub raise_ack : ℕ → TaskLogSyncState → TaskLogSyncState
raise_ack acked s = if ltb s.acked_offset acked then record s { acked_offset = acked } else s

abbrev pub reaches : ℕ → Option InflightAppend → Bool
reaches acked none = false
reaches acked (some inflight) = leb inflight.end_offset acked

unfoldable pub drop_inflight : TaskLogSyncState → TaskLogSyncState
drop_inflight s =
    if reaches s.acked_offset s.inflight_append then record s { inflight_append = none } else s

abbrev pub backlog : TaskLogSyncState → ℕ
backlog s = saturating_sub s.committed_offset s.acked_offset

abbrev pub should_flush_append : SyncEnv → Bool → TaskLogSyncState → Bool
should_flush_append env force_append s =
    ltb 0 (backlog s)
    && (force_append
        || (leb max_log_chunk_bytes (backlog s)
            || leb log_append_interval_ms (elapsed env s.last_append_flush)))

abbrev pub due_active : SyncEnv → Bool → Option ℕ → Bool
due_active env force_active none = false
due_active env force_active (some last_change) =
    force_active || leb log_active_debounce_ms (elapsed env last_change)

module _ {V : Type 0} where
  unfoldable pub reconcile_ack : AgentClient V → TaskLogSyncState → TaskLogSyncState
  unfolding raise_ack drop_inflight get_task_log_ack
  reconcile_ack client s = drop_inflight (raise_ack (get_task_log_ack s.task_id client) s)

  -- What follows the `?` behind a send that may fail.
  abbrev pub after_send : Step V → TaskLogSyncState → TaskLogSyncState → Synced V
  after_send (Result.ok _, client) sent s = (ok, sent, client)
  after_send (Result.err e, client) sent s = (failed, s, client)

  -- The chunk read again and sent again.
  abbrev pub resend :
      SyncEnv → InflightAppend → Option (Text × ℕ) → TaskLogSyncState → AgentClient V → Synced V
  resend env inflight none s client = (failed, s, client)
  resend env inflight (some (content, byte_len)) s client =
      if eqb byte_len 0 || is_empty content
      then (ok, s, client)
      else after_send (send_task_log_append s.task_id inflight.start_offset content client)
          (record s {
            inflight_append = some (record inflight {
              sent_at = env.at;
              connection_generation = client.connection_generation;
            });
          })
          s

  abbrev pub after_flush :
      Done × Writer → (TaskLogSyncState → Synced V) → TaskLogSyncState → AgentClient V → Synced V
  after_flush (ok, w) rest s client = rest (record s { writer = w })
  after_flush (failed, w) rest s client = (failed, record s { writer = w }, client)

  abbrev pub should_resend : SyncEnv → InflightAppend → AgentClient V → Bool
  should_resend env inflight client =
      not (eqb client.connection_generation inflight.connection_generation)
      || leb log_append_ack_timeout_ms (elapsed env inflight.sent_at)

  abbrev pub retry : SyncEnv → Option InflightAppend → TaskLogSyncState → AgentClient V → Synced V
  retry env none s client = (ok, s, client)
  retry env (some inflight) s client =
      if client.connected && should_resend env inflight client
      then after_flush (flush s.writer)
          (λ t.
            resend env inflight
              (read_utf8_chunk env.read_limit t.writer.file inflight.start_offset
                (saturating_sub inflight.end_offset inflight.start_offset))
              t client)
          s client
      else (ok, s, client)

  unfoldable pub retry_inflight_append_if_needed :
      SyncEnv → TaskLogSyncState → AgentClient V → Synced V
  retry_inflight_append_if_needed env s client = retry env s.inflight_append s client

  -- The next chunk of the backlog.
  abbrev pub send_chunk : SyncEnv → Option (Text × ℕ) → TaskLogSyncState → AgentClient V → Synced V
  send_chunk env none s client = (failed, s, client)
  send_chunk env (some (content, byte_len)) s client =
      if ltb 0 byte_len && not (is_empty content)
      then after_send (send_task_log_append s.task_id s.acked_offset content client)
          (record s {
            inflight_append = some (record {
              start_offset = s.acked_offset;
              end_offset = (s.acked_offset + byte_len) % 2 ^ 64;
              sent_at = env.at;
              connection_generation = client.connection_generation;
            });
            last_append_flush = env.at;
          })
          s
      else (ok, s, client)

  unfoldable pub append_if_due : SyncEnv → Bool → TaskLogSyncState → AgentClient V → Synced V
  append_if_due env force_append s client =
      if not (is_some s.inflight_append) && should_flush_append env force_append s
      then after_flush (flush s.writer)
          (λ t.
            send_chunk env
              (read_utf8_chunk env.read_limit t.writer.file t.acked_offset max_log_chunk_bytes) t
              client)
          s client
      else (ok, s, client)

  abbrev pub send_pending : Option PendingActiveEvent → TaskLogSyncState → AgentClient V → Synced V
  send_pending none s client = (ok, s, client)
  send_pending (some pending) s client =
      after_send
        (elim pending.kind [
          | set visible ↦
              send_task_log_active s.task_id pending.seq s.acked_offset visible.text
                visible.is_stderr client
          | clear ↦ send_task_log_active_clear s.task_id pending.seq s.acked_offset client
        ])
        (record s { pending_active_event = none; last_active_change = none }) s

  -- The display is brought to the server only when it has every line before it.
  unfoldable pub active_if_due : SyncEnv → Bool → TaskLogSyncState → AgentClient V → Synced V
  active_if_due env force_active s client =
      if is_some s.inflight_append || not (eqb s.acked_offset s.committed_offset)
      then (ok, s, client)
      else if due_active env force_active s.last_active_change
      then send_pending s.pending_active_event s client
      else (ok, s, client)

  abbrev pub and_then : Synced V → (TaskLogSyncState → AgentClient V → Synced V) → Synced V
  and_then (ok, s, client) rest = rest s client
  and_then (failed, s, client) rest = (failed, s, client)

  unfoldable pub sync_with_server :
      SyncEnv → Bool → Bool → TaskLogSyncState → AgentClient V → Synced V
  unfolding reconcile_ack retry_inflight_append_if_needed append_if_due active_if_due
  sync_with_server env force_append force_active s client =
      and_then (retry_inflight_append_if_needed env (reconcile_ack client s) client) λ s1 client1.
        and_then (append_if_due env force_append s1 client1)
          λ s2 client2. active_if_due env force_active (reconcile_ack client2 s2) client2

unfoldable pub is_fully_synced : TaskLogSyncState → Bool
is_fully_synced s =
    eqb s.acked_offset s.committed_offset
    && (not (is_some s.inflight_append) && not (is_some s.pending_active_event))
