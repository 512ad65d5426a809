-- ===== src/Agent/Snapshot.antt =====
-- What the agent tells the server about its tasks when it has connected.
use tasknexus_client_agent.Text.{Text, codes}
use tasknexus_client_agent.Prelude.{
  ℤ, int_eq, Bool, true, false, Option, none, some, [], ◌∷◌, ◌++◌, if◌then◌else◌, Map, not,
  is_empty,
}
use tasknexus_client_agent.Client.Message.{StateSyncTask}
use tasknexus_client_agent.Store.{
  PersistedTaskState, Json, PersistedTaskStateKind, running, completed_pending_sync,
  failed_pending_sync, lost_on_restart, PersistedFinalPayload,
}
use tasknexus_client_agent.Store.Sorted.{or_last}
use tasknexus_client_agent.Agent.{Agent, RunningTask, sync_id}

module _ {V : Type 0} where
  abbrev pub or_this :
      Option (StateSyncTask V) → Option (StateSyncTask V) → Option (StateSyncTask V)
  or_this = or_last sync_id

  abbrev if_this : Bool → StateSyncTask V → Option (StateSyncTask V)
  if_this b x = if b then some x else none

module _ {V : Type 0} (json : Json V) where
  abbrev pub from_running : ℤ → Option RunningTask → Option (StateSyncTask V)
  from_running t none = none
  from_running t (some r) = some (record {
    task_id = t;
    local_state = codes "RUNNING";
    workspace_name = r.workspace_name;
    final_payload = json.object [];
    has_local_log = not (is_empty r.log_path);
  })

  abbrev pub told_state : PersistedTaskStateKind → Text
  told_state running = codes "RUNNING"
  told_state completed_pending_sync = codes "COMPLETED_PENDING_SYNC"
  told_state failed_pending_sync = codes "FAILED_PENDING_SYNC"
  told_state lost_on_restart = codes "LOST_ON_RESTART"

  -- A field that is told unless its value is empty.
  abbrev pub field : Text → Bool → V → Map Text V
  field name true value = []
  field name false value = (name, value) ∷ []

  abbrev pub exit_code : Option ℤ → Map Text V
  exit_code none = []
  exit_code (some code) = (codes "exit_code", json.number code) ∷ []

  abbrev pub told_payload : PersistedFinalPayload V → V
  told_payload p = json.object (
      field (codes "type") (is_empty p.payload_type) (json.string p.payload_type)
      ++ (exit_code p.exit_code
          ++ (field (codes "stdout") (is_empty p.stdout) (json.string p.stdout)
              ++ (field (codes "stderr") (is_empty p.stderr) (json.string p.stderr)
                  ++ (field (codes "result") (is_empty p.result) (json.object p.result)
                      ++ field (codes "error") (is_empty p.error) (json.string p.error))))))

  -- What the server is told of a task of which something is kept.
  abbrev pub told : PersistedTaskState V → StateSyncTask V
  told task = record {
    task_id = task.task_id;
    local_state = told_state task.local_state;
    workspace_name = task.workspace_name;
    final_payload = told_payload task.final_payload;
    has_local_log = not (is_empty task.local_log_path);
  }

  abbrev pub from_kept : Option (PersistedTaskState V) → Option (StateSyncTask V)
  from_kept none = none
  from_kept (some task) = some (told task)
