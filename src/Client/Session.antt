-- ===== src/Client/Session.antt =====
-- The life of a connection in agent/src/client.rs: the loop of `run` with its reconnects, the state
-- that `message_loop` sets up and tears down, and what `handle_message` does with each message.
pub mod Backoff
pub mod Dispatch
use tasknexus_client_agent.Prelude.{
  ℕ, zero, suc, ◌+◌, ◌*◌, ◌%◌, ◌^◌, ◌≤◌, min, ℤ, pos, negsuc, Bool, true, false, ◌&&◌, Option, none,
  some, List, [], ◌∷◌, ◌++◌, if◌then◌else◌, ltb, leb, is_empty,
}
use tasknexus_client_agent.Text.{Text, codes}
use tasknexus_client_agent.Error.{AgentError}
use tasknexus_client_agent.Client.Message.{
  ServerMessage, connected, heartbeat_ack, task_log_ack, state_sync_result, task_state_ack,
  task_dispatch, task_cancel, agent_update, agent_restart, fetch_agent_log, TaskDispatchData,
  AgentUpdateData, AgentRestartData, TaskStateAckData, StateSyncAction,
}
use tasknexus_client_agent.Client.Connection.{AgentClient, Channel, record_task_log_ack}

-- How `message_loop` ends: it fails before it is connected, or it connected and the connection was
-- lost, `true` if `stop` was called meanwhile.
pub data Session : Type 0 where
  refused : AgentError → Session
  served : Bool → Session

-- What `run` does besides its state: the callback, the sleeps (in seconds) and giving up.
pub data Action : Type 0 where
  on_disconnected gave_up : Action
  sleep : ℕ → Action

-- `max_reconnect_attempts > 0 && attempts >= max_reconnect_attempts as u32`
unfoldable pub exhausted : ℤ → ℕ → Bool
exhausted (pos m) attempts = ltb 0 m && leb m attempts
exhausted (negsuc m) attempts = false

module _ {V : Type 0} where
  -- `message_loop` once `connect_async` succeeded.
  unfoldable pub open_session : AgentClient V → AgentClient V
  open_session c = record c {
    connected = true;
    connection_generation = (c.connection_generation + 1) % 2 ^ 64;
    control_sender = some (record { items = []; closed = none });
    log_sender = some (record { items = []; closed = none });
  }

  -- The clean-up at its end.
  unfoldable pub close_session : AgentClient V → AgentClient V
  close_session c = record c { control_sender = none; log_sender = none }

  -- The client when `message_loop` returns.
  unfoldable pub after_loop : Session → AgentClient V → AgentClient V
  unfolding open_session close_session
  after_loop (refused e) c = c
  after_loop (served stopped) c =
      let c' = close_session (open_session c) in
      if stopped then record c' { running = false } else c'

  -- What both arms of `run` do first, and whether `on_disconnected` is called.
  unfoldable pub disconnect : AgentClient V → List Action × AgentClient V
  disconnect c = (
    (if c.connected then on_disconnected ∷ [] else []),
    record c { connected = false; control_sender = none; log_sender = none },
  )

  -- `min(reconnect_interval * 2u64.pow(min(attempts, 5)), 60)`
  unfoldable pub wait_time : AgentClient V → ℕ
  wait_time c = min ((c.config.reconnect_interval * 2 ^ min c.reconnect_attempts 5) % 2 ^ 64) 60

  abbrev with_actions : List Action → List Action × AgentClient V → List Action × AgentClient V
  with_actions actions (more, c) = (actions ++ more, c)

  -- The loop of `run` over the sessions that it lives through.
  unfoldable pub run : List Session → AgentClient V → List Action × AgentClient V
  unfolding after_loop disconnect wait_time exhausted
  run [] c = ([], c)
  run (served stopped ∷ sessions) c =
      let (told, c') =
        disconnect (record (after_loop (served stopped) c) { reconnect_attempts = 0 }) in
      let rest = run sessions c' in
      if c'.running
      then with_actions (told ++ sleep c'.config.reconnect_interval ∷ []) rest
      else (told, c')
  run (refused e ∷ sessions) c =
      let (told, c') = disconnect (after_loop (refused e) c) in
      let d = record c' { reconnect_attempts = (c'.reconnect_attempts + 1) % 2 ^ 32 } in
      let rest = run sessions d in
      if exhausted d.config.max_reconnect_attempts d.reconnect_attempts
      then (told ++ gave_up ∷ [], d)
      else if d.running
      then with_actions (told ++ sleep (wait_time d) ∷ []) rest
      else (told ++ sleep (wait_time d) ∷ [], d)

-- What `handle_message` calls. The last four are spawned as tasks of their own.
pub data Call : Type 0 where
  on_connected : Call
  on_state_sync_result : List StateSyncAction → Call
  on_task_state_ack : TaskStateAckData → Call
  on_task_cancel : ℤ → Call
  on_task_dispatch : TaskDispatchData → Call
  on_agent_update : AgentUpdateData → Call
  on_agent_restart : AgentRestartData → Call
  handle_fetch_agent_log : Text → ℕ → Call

unfoldable pub with_workspace : TaskDispatchData → TaskDispatchData
with_workspace d = record d {
  workspace_name = if is_empty d.workspace_name then codes "default" else d.workspace_name;
}

module _ {V : Type 0} where
  unfoldable pub handle_message : ServerMessage → AgentClient V → List Call × AgentClient V
  unfolding with_workspace
  handle_message (connected message) c = (on_connected ∷ [], c)
  handle_message (heartbeat_ack server_time) c = ([], c)
  handle_message (task_log_ack task_id next_offset) c =
      ([], record_task_log_ack task_id next_offset c)
  handle_message (state_sync_result actions) c = (on_state_sync_result actions ∷ [], c)
  handle_message (task_state_ack ack) c = (on_task_state_ack ack ∷ [], c)
  handle_message (task_dispatch d) c = (on_task_dispatch (with_workspace d) ∷ [], c)
  handle_message (task_cancel task_id) c = (on_task_cancel task_id ∷ [], c)
  handle_message (agent_update d) c = (on_agent_update d ∷ [], c)
  handle_message (agent_restart d) c = (on_agent_restart d ∷ [], c)
  handle_message (fetch_agent_log request_id tail_bytes) c =
      (handle_fetch_agent_log request_id tail_bytes ∷ [], c)
