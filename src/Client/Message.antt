-- ===== src/Client/Message.antt =====
-- The messages of agent/src/client.rs. A JSON value (`serde_json::Value`) is carried and never
-- looked into here, so its type `V` is a parameter.
use tasknexus_client_agent.Prelude.{ℕ, ◌*◌, ℤ, Bool, Option, none, some, List, Map, true, false}
use tasknexus_client_agent.Text.{Text, codes}

pub record InlineCode : Type 0 where
  pub language : Text
  pub content : Text

-- The values that serde fills in for a field that is not sent.
abbrev pub default_code_language : Text
default_code_language = codes "shell"

abbrev pub default_ref : Text
default_ref = codes "main"

abbrev pub default_timeout : ℕ
default_timeout = 3600

abbrev pub default_execution_mode : Text
default_execution_mode = codes "command"

abbrev pub default_tail_bytes : ℕ
default_tail_bytes = 256 * 1024

pub record TaskDispatchData : Type 0 where
  pub task_id : ℤ
  pub workspace_name : Text
  pub execution_mode : Text
  pub command : Text
  pub code : Option InlineCode
  pub client_repo_url : Option Text
  pub client_repo_ref : Text
  pub client_repo_token : Option Text
  pub timeout : ℕ
  pub environment : Map Text Text
  pub prepare_repo_before_execute : Bool
  pub cleanup_workspace_on_success : Bool

pub record AgentUpdateData : Type 0 where
  pub task_id : ℤ
  pub download_url : Option Text

pub record AgentRestartData : Type 0 where
  pub task_id : ℤ

pub record TaskStateAckData : Type 0 where
  pub task_id : ℤ
  pub status : Text
  pub accepted : Bool

-- The fields of a constructor that are those of a `…Data` record are held as that record.
pub data StateSyncPayload : Type 0 where
  task_dispatch : TaskDispatchData → StateSyncPayload
  agent_update : AgentUpdateData → StateSyncPayload
  agent_restart : AgentRestartData → StateSyncPayload

pub record StateSyncAction : Type 0 where
  pub task_id : ℤ
  pub action : Text
  pub backend_status : Text
  pub payload : Option StateSyncPayload
  pub server_log_offset : ℕ

pub data ServerMessage : Type 0 where
  connected : Text → ServerMessage
  heartbeat_ack : Text → ServerMessage
  task_log_ack : ℤ → ℕ → ServerMessage
  state_sync_result : List StateSyncAction → ServerMessage
  task_state_ack : TaskStateAckData → ServerMessage
  task_dispatch : TaskDispatchData → ServerMessage
  task_cancel : ℤ → ServerMessage
  agent_update : AgentUpdateData → ServerMessage
  agent_restart : AgentRestartData → ServerMessage
  fetch_agent_log : Text → ℕ → ServerMessage

pub record SystemInfo : Type 0 where
  pub hostname : Text
  pub platform : Text
  pub platform_version : Text
  pub platform_release : Text
  pub architecture : Text
  pub agent_version : Text
  pub ip_address : Text

pub record StateSyncTask (V : Type 0) : Type 0 where
  pub task_id : ℤ
  pub local_state : Text
  pub workspace_name : Text
  pub final_payload : V
  pub has_local_log : Bool

pub data ClientMessage (V : Type 0) : Type 0 where
  heartbeat : SystemInfo → ClientMessage V
  state_sync : List (StateSyncTask V) → ClientMessage V
  task_started : ℤ → ClientMessage V
  task_log_append : (task_id : ℤ) (start_offset : ℕ) (content : Text) → ClientMessage V
  task_log_active :
      (task_id : ℤ) (seq base_offset : ℕ) (line : Text) (is_stderr : Bool) → ClientMessage V
  task_log_active_clear : (task_id : ℤ) (seq base_offset : ℕ) → ClientMessage V
  task_completed :
      (task_id exit_code : ℤ) (stdout stderr : Text) (result : Map Text V) → ClientMessage V
  task_failed : (task_id : ℤ) (error : Text) → ClientMessage V
  task_heartbeat : ℤ → ClientMessage V
  agent_log_content :
      (request_id content file_path : Text) (total_size : ℕ) (truncated : Bool) (error : Text)
      → ClientMessage V

module _ {V : Type 0} where
  unfoldable pub log_task_id : ClientMessage V → Option ℤ
  log_task_id (task_log_append t start content) = some t
  log_task_id (task_log_active t seq base line is_stderr) = some t
  log_task_id (task_log_active_clear t seq base) = some t
  log_task_id (task_completed t code stdout stderr result) = some t
  log_task_id (task_failed t error) = some t
  log_task_id _ = none

  -- The `matches!` of `send_message`.
  unfoldable pub is_log_message : ClientMessage V → Bool
  is_log_message (task_log_append t start content) = true
  is_log_message (task_log_active t seq base line is_stderr) = true
  is_log_message (task_log_active_clear t seq base) = true
  is_log_message (task_completed t code stdout stderr result) = true
  is_log_message (task_failed t error) = true
  is_log_message _ = false
