-- ===== src/Agent.antt =====
-- `Agent` of agent/src/main.rs: the tasks from their dispatch to the server's acknowledgement.
pub mod Outcome
pub mod Beginning
pub mod Clearing
pub mod Snapshot
pub mod Reach
pub mod Control
pub mod Interleaving
use tasknexus_client_agent.Prelude.{
  ℕ, ℤ, pos, int_eq, text_eq, eqb_ℤ, ◌==◌, Bool, true, false, ◌||◌, ◌&&◌, not, Option, none, some,
  List, [], ◌∷◌, ◌++◌, if◌then◌else◌, is_some, is_empty, map, Map, get, insert, remove,
  contains_key, ◌⊎◌, inl, inr,
}
use tasknexus_client_agent.Text.{Text, codes}
use tasknexus_client_agent.Client.Message.{TaskDispatchData, TaskStateAckData, StateSyncTask}
use tasknexus_client_agent.Client.Connection.{
  AgentClient, send_task_failed, send_task_started, send_task_completed, send_state_sync,
  clear_task_log_ack,
}
use tasknexus_client_agent.Log.Chunk.{trim_output_for_storage}
use tasknexus_client_agent.Executor.Process.{ExecutionResult}
use tasknexus_client_agent.Store.{
  PersistedStateStore, PersistedTaskState, Json, upsert_running, mark_completed, mark_failed,
  remove_task, get_task, snapshot, from_persisted, sort_by_key,
}
use tasknexus_client_agent.Store.Disk.{Codec, Disk, save}

-- The workspace's name, whether the cancel signal was sent, and the log's path.
pub record RunningTask : Type 0 where
  pub workspace_name : Text
  pub cancel_sent : Bool
  pub log_path : Text

-- `removed_files` are the files that the agent had removed; an error of a removal is ignored.
pub record Agent (V : Type 0) : Type 0 where
  pub client : AgentClient V
  pub running_tasks : Map ℤ RunningTask
  pub persisted_state : PersistedStateStore V
  pub disk : Disk
  pub update_in_progress : Bool
  pub removed_files : List Text

abbrev pub cancelled_entry : Option RunningTask → ℤ → Map ℤ RunningTask → Map ℤ RunningTask
cancelled_entry none task_id m = m
cancelled_entry (some task) task_id m = insert task_id (record task { cancel_sent = true }) m

abbrev pub with_log_path : Option RunningTask → ℤ → Text → Map ℤ RunningTask → Map ℤ RunningTask
with_log_path none task_id log_path m = m
with_log_path (some task) task_id log_path m =
    insert task_id (record task { log_path = log_path }) m

-- The statuses that end a task.
abbrev pub is_final : Text → Bool
is_final status =
    (status == codes "COMPLETED")
    || ((status == codes "FAILED")
        || ((status == codes "CANCELLED") || (status == codes "TIMEOUT")))

module _ {V : Type 0} where
  abbrev pub cleanup_persisted_task_files : Text → Agent V → Agent V
  cleanup_persisted_task_files path a =
      if is_empty path then a else record a { removed_files = a.removed_files ++ path ∷ [] }

  unfoldable pub handle_task_cancel : ℤ → Agent V → Agent V
  handle_task_cancel task_id a = record a {
    running_tasks = cancelled_entry (get task_id a.running_tasks) task_id a.running_tasks;
  }

module _ {V : Type 0} where
  abbrev pub any_with : ℤ → List (StateSyncTask V) → Bool
  any_with task_id [] = false
  any_with task_id (task ∷ tasks) = (task.task_id == task_id) || any_with task_id tasks

  abbrev pub sync_id : StateSyncTask V → ℤ
  sync_id task = task.task_id

module _ {V : Type 0} (json : Json V) where
  abbrev pub running_task : ℤ → RunningTask → StateSyncTask V
  running_task task_id r = record {
    task_id = task_id;
    local_state = codes "RUNNING";
    workspace_name = r.workspace_name;
    final_payload = json.object [];
    has_local_log = not (is_empty r.log_path);
  }

  -- The running tasks of which nothing is kept are put behind those of which something is.
  abbrev pub push_running : Map ℤ RunningTask → List (StateSyncTask V) → List (StateSyncTask V)
  push_running [] tasks = tasks
  push_running ((task_id, r) ∷ m) tasks =
      push_running m
        (if any_with task_id tasks then tasks else tasks ++ running_task task_id r ∷ [])

  unfoldable pub snapshot_tasks : Agent V → List (StateSyncTask V)
  unfolding sort_by_key snapshot from_persisted
  snapshot_tasks a =
      sort_by_key sync_id
        (push_running a.running_tasks (map (from_persisted json) (snapshot a.persisted_state)))

  unfoldable pub send_state_sync_snapshot : Agent V → Agent V
  unfolding snapshot_tasks
  send_state_sync_snapshot a = record a { client = (send_state_sync (snapshot_tasks a) a.client).1 }

module _ {V : Type 0} (codec : Codec V) where
  unfoldable pub save_persisted_state : Agent V → Agent V
  save_persisted_state a = record a { disk = (save codec a.persisted_state a.disk).1 }

  abbrev pub cleanup_removed : Option (PersistedTaskState V) → Agent V → Agent V
  cleanup_removed none a = a
  cleanup_removed (some task) a = cleanup_persisted_task_files task.local_log_path a

  unfoldable pub clear_persisted_task_state : ℤ → Agent V → Agent V
  unfolding save_persisted_state remove_task
  clear_persisted_task_state task_id a =
      let removed = remove_task task_id a.persisted_state in
      let saved = save_persisted_state (record a { persisted_state = removed.1 }) in
      if contains_key task_id saved.running_tasks then saved else cleanup_removed removed.0 saved

  abbrev pub accepted_ack : TaskStateAckData → Agent V → Agent V
  accepted_ack ack a = if is_final ack.status then clear_persisted_task_state ack.task_id a else a

  abbrev pub rejected_ack : TaskStateAckData → Agent V → Agent V
  rejected_ack ack a =
      if is_final ack.status
      then clear_persisted_task_state ack.task_id
          (if contains_key ack.task_id a.running_tasks then handle_task_cancel ack.task_id a else a)
      else a

  unfoldable pub handle_task_state_ack : TaskStateAckData → Agent V → Agent V
  unfolding clear_persisted_task_state handle_task_cancel
  handle_task_state_ack ack a = if ack.accepted then accepted_ack ack a else rejected_ack ack a

  -- What `handle_task_dispatch` does once `TaskLogSyncState::new` has ended, with an error or with the
  -- path of the log. The number says whether the task goes on to run.
  abbrev pub with_log : Text ⊎ Text → TaskDispatchData → Agent V → Bool × Agent V
  with_log (inl e) dispatch a = (
    false,
    record a {
      client =
          (send_task_failed dispatch.task_id (codes "Failed to initialize task logs: " ++ e)
            a.client).1;
      running_tasks = remove dispatch.task_id a.running_tasks;
    },
  )
  with_log (inr log_path) dispatch a = (
    true,
    save_persisted_state (record a {
      running_tasks =
          with_log_path (get dispatch.task_id a.running_tasks) dispatch.task_id log_path
            a.running_tasks;
      persisted_state =
          upsert_running dispatch.task_id dispatch.workspace_name log_path a.persisted_state;
    }),
  )

  -- `handle_task_dispatch` up to `run_task`, as one step: no other handler comes in between.
  -- `Agent.Interleaving` has it cut at its locks.
  unfoldable pub begin_dispatch : Text ⊎ Text → TaskDispatchData → Agent V → Bool × Agent V
  unfolding save_persisted_state
  begin_dispatch log dispatch a =
      if a.update_in_progress
      then (
        false,
        record a {
          client =
              (send_task_failed dispatch.task_id (codes "Agent is updating; task rejected")
                a.client).1;
        },
      )
      else if contains_key dispatch.task_id a.running_tasks
      then (false, a)
      else with_log log dispatch (record a {
        client =
            clear_task_log_ack dispatch.task_id (send_task_started dispatch.task_id a.client).1;
        running_tasks =
            insert dispatch.task_id
              (record {
                workspace_name = dispatch.workspace_name;
                cancel_sent = false;
                log_path = [];
              })
              a.running_tasks;
      })

  module _ (decimal : ℕ → Text) where
    abbrev pub timeout_message : TaskDispatchData → Text
    timeout_message dispatch =
        codes "Task timed out after " ++ (decimal dispatch.timeout ++ codes " seconds")

    -- The state that is kept of the task.
    abbrev pub store_outcome :
        TaskDispatchData → ExecutionResult V → Text → PersistedStateStore V → PersistedStateStore V
    store_outcome dispatch r log_path s =
        let done =
          mark_completed dispatch.task_id dispatch.workspace_name log_path r.exit_code
            (trim_output_for_storage decimal r.stdout) (trim_output_for_storage decimal r.stderr)
            r.result s in
        if r.cancelled
        then (remove_task dispatch.task_id s).1
        else if eqb_ℤ r.exit_code (pos 0)
        then done
        else if r.timed_out
        then mark_failed dispatch.task_id dispatch.workspace_name log_path
            (timeout_message dispatch) s
        else done

    -- The result that is sent.
    abbrev pub send_outcome : TaskDispatchData → ExecutionResult V → AgentClient V → AgentClient V
    send_outcome dispatch r c =
        let done =
          (send_task_completed dispatch.task_id r.exit_code
            (trim_output_for_storage decimal r.stdout) (trim_output_for_storage decimal r.stderr)
            r.result c).1 in
        if r.cancelled
        then c
        else if eqb_ℤ r.exit_code (pos 0)
        then done
        else if r.timed_out
        then (send_task_failed dispatch.task_id (timeout_message dispatch) c).1
        else done

    abbrev pub cleanup_log : Bool → ℤ → Text → Agent V → Agent V
    cleanup_log flush_succeeded task_id log_path a =
        if flush_succeeded && not (is_some (get_task task_id a.persisted_state))
        then cleanup_persisted_task_files log_path a
        else a

    -- `handle_task_dispatch` once the task has run and its log has been finalized and synced, which
    -- may have failed.
    unfoldable pub finish_dispatch :
        TaskDispatchData → ExecutionResult V → Bool → Text → Agent V → Agent V
    unfolding save_persisted_state
    finish_dispatch dispatch r flush_succeeded log_path a =
        let stored =
          save_persisted_state
            (record a { persisted_state = store_outcome dispatch r log_path a.persisted_state }) in
        let sent = record stored { client = send_outcome dispatch r stored.client } in
        let cleaned = cleanup_log flush_succeeded dispatch.task_id log_path sent in
        record cleaned {
          client = clear_task_log_ack dispatch.task_id cleaned.client;
          running_tasks = remove dispatch.task_id cleaned.running_tasks;
        }
