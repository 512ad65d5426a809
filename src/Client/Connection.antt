-- ===== src/Client/Connection.antt =====
-- `AgentClient` of agent/src/client.rs: the connection's flags, the two channels to the send task
-- and the acknowledged log offsets. The locks make each method below one step.
pub mod Acks
pub mod Routes
use tasknexus_client_agent.Prelude.{
  ℕ, ◌+◌, ◌%◌, ◌^◌, max, ℤ, int_eq, Map, get, insert, remove, Bool, true, false, Option, none, some,
  List, [], ◌∷◌, ◌++◌, ◌≡◌, or_else, if◌then◌else◌,
}
use tasknexus_client_agent.Text.{Text, codes, contains}
use tasknexus_client_agent.Error.{Result, ok, err, AgentError, connection, ◌>>=◌}
use tasknexus_client_agent.Config.{AgentConfig}
use tasknexus_client_agent.Client.Message.{
  ClientMessage, StateSyncTask, SystemInfo, log_task_id, is_log_message, heartbeat, state_sync,
  task_started, task_log_append, task_log_active, task_log_active_clear, task_completed,
  task_failed, task_heartbeat, agent_log_content,
}

-- The sending half of an `mpsc` channel: what was sent and not yet received, and the text of the
-- error that `send` gives once the receiver is gone. A full channel makes `send` wait, and changes
-- nothing else, so its bound is not part of the state.
pub record Channel (A : Type 0) : Type 0 where
  pub items : List A
  pub closed : Option Text

pub record QueuedLogMessage (V : Type 0) : Type 0 where
  pub task_id : ℤ
  pub message : ClientMessage V

pub record AgentClient (V : Type 0) : Type 0 where
  pub config : AgentConfig
  pub connected : Bool
  pub running : Bool
  pub reconnect_attempts : ℕ
  pub control_sender : Option (Channel (ClientMessage V))
  pub log_sender : Option (Channel (QueuedLogMessage V))
  pub log_ack_offsets : Map ℤ ℕ
  pub connection_generation : ℕ

-- A method that may fail gives the new state beside its result.
abbrev pub Step : Type 0 → Type 0
Step V = Result (Unit {0}) × AgentClient V

module _ {V : Type 0} where
  unfoldable pub new_client : AgentConfig → AgentClient V
  new_client config = record {
    config = config;
    connected = false;
    running = false;
    reconnect_attempts = 0;
    control_sender = none;
    log_sender = none;
    log_ack_offsets = [];
    connection_generation = 0;
  }

  -- `Url::parse` is the url crate's.
  unfoldable pub ws_url {ℓ} : {Url : Type ℓ} → (Text → Result Url) → AgentClient V → Result Url
  ws_url parse c =
      let separator = if contains b'?' c.config.server then codes "&" else codes "?" in
      parse (c.config.server ++ (separator ++ (codes "name=" ++ c.config.name)))

  unfoldable pub send_control_message : ClientMessage V → AgentClient V → Step V
  send_control_message message c = elim c.control_sender [
    | none ↦ (err (connection (codes "Cannot send control message: not connected")), c)
    | some tx ↦ elim tx.closed [
      | none ↦ (
        ok tt,
        record c { control_sender = some (record tx { items = tx.items ++ message ∷ [] }) },
      )
      | some e ↦ (err (connection (codes "Failed to send control message: " ++ e)), c)
    ]
  ]

  -- `send_log_message` behind its test for a task.
  unfoldable pub send_queued : ℤ → ClientMessage V → AgentClient V → Step V
  send_queued task_id message c = elim c.log_sender [
    | none ↦ (err (connection (codes "Cannot send log message: not connected")), c)
    | some tx ↦ elim tx.closed [
      | none ↦ (
        ok tt,
        record c {
          log_sender = some (record tx {
            items = tx.items ++ record { task_id = task_id; message = message } ∷ [];
          });
        },
      )
      | some e ↦ (err (connection (codes "Failed to send log message: " ++ e)), c)
    ]
  ]

  unfoldable pub send_log_message : ClientMessage V → AgentClient V → Step V
  unfolding send_queued log_task_id
  send_log_message message c = elim (log_task_id message) [
    | none ↦ (err (connection (codes "Cannot send log message without task context")), c)
    | some task_id ↦ send_queued task_id message c
  ]

  abbrev pub is_connected : AgentClient V → Bool
  is_connected c = c.connected

  unfoldable pub record_task_log_ack : ℤ → ℕ → AgentClient V → AgentClient V
  record_task_log_ack task_id next_offset c = record c {
    log_ack_offsets = elim (get task_id c.log_ack_offsets) [
      | none ↦ insert task_id next_offset c.log_ack_offsets
      | some current ↦ insert task_id (max current next_offset) c.log_ack_offsets
    ];
  }

  unfoldable pub get_task_log_ack : ℤ → AgentClient V → ℕ
  get_task_log_ack task_id c = or_else (get task_id c.log_ack_offsets) 0

  unfoldable pub clear_task_log_ack : ℤ → AgentClient V → AgentClient V
  clear_task_log_ack task_id c = record c { log_ack_offsets = remove task_id c.log_ack_offsets }

  unfoldable pub send_message : ClientMessage V → AgentClient V → Step V
  unfolding is_log_message send_log_message send_control_message
  send_message message c =
      if is_log_message message then send_log_message message c else send_control_message message c

  unfoldable pub send_heartbeat : SystemInfo → AgentClient V → Step V
  send_heartbeat system_info = send_control_message (heartbeat system_info)

  unfoldable pub send_state_sync : List (StateSyncTask V) → AgentClient V → Step V
  send_state_sync tasks = send_control_message (state_sync tasks)

  unfoldable pub send_task_started : ℤ → AgentClient V → Step V
  send_task_started task_id = send_message (task_started task_id)

  unfoldable pub send_task_log_append : ℤ → ℕ → Text → AgentClient V → Step V
  send_task_log_append task_id start_offset content =
      send_log_message (task_log_append task_id start_offset content)

  unfoldable pub send_task_log_active : ℤ → ℕ → ℕ → Text → Bool → AgentClient V → Step V
  send_task_log_active task_id seq base_offset line is_stderr =
      send_log_message (task_log_active task_id seq base_offset line is_stderr)

  unfoldable pub send_task_log_active_clear : ℤ → ℕ → ℕ → AgentClient V → Step V
  send_task_log_active_clear task_id seq base_offset =
      send_log_message (task_log_active_clear task_id seq base_offset)

  unfoldable pub send_task_completed : ℤ → ℤ → Text → Text → Map Text V → AgentClient V → Step V
  send_task_completed task_id exit_code stdout stderr result =
      send_message (task_completed task_id exit_code stdout stderr result)

  unfoldable pub send_task_failed : ℤ → Text → AgentClient V → Step V
  send_task_failed task_id error = send_message (task_failed task_id error)

  unfoldable pub send_task_heartbeat : ℤ → AgentClient V → Step V
  send_task_heartbeat task_id = send_control_message (task_heartbeat task_id)

  unfoldable pub send_agent_log_content :
      Text → Text → Text → ℕ → Bool → Text → AgentClient V → Step V
  send_agent_log_content request_id content file_path total_size truncated error =
      send_control_message
        (agent_log_content request_id content file_path total_size truncated error)

  -- `stop`
  unfoldable pub stop : AgentClient V → AgentClient V
  stop c = record c { running = false }
