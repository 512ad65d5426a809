-- ===== src/Store.antt =====
-- `PersistedStateStore` of agent/src/persisted_state.rs: the state of the tasks that a restart keeps.
pub mod Sorted
pub mod Inv
pub mod Disk
use tasknexus_client_agent.Prelude.{
  ℕ, ℤ, int_eq, leb_ℤ, eqb_ℤ, Bool, true, false, ◌||◌, Option, none, some, List, [], ◌∷◌, ◌++◌,
  if◌then◌else◌, map, is_empty, not, Map, get, insert, remove, ◌⊎◌, inl, inr,
}
use tasknexus_client_agent.Text.{Text, codes}
use tasknexus_client_agent.Error.{AgentError, Result, ok, err, execution, ◌>>=◌}
use tasknexus_client_agent.Client.Message.{StateSyncTask}

pub data PersistedTaskStateKind : Type 0 where
  running completed_pending_sync failed_pending_sync lost_on_restart : PersistedTaskStateKind

pub record PersistedFinalPayload (V : Type 0) : Type 0 where
  pub payload_type : Text
  pub exit_code : Option ℤ
  pub stdout : Text
  pub stderr : Text
  pub result : Map Text V
  pub error : Text

pub record PersistedTaskState (V : Type 0) : Type 0 where
  pub task_id : ℤ
  pub local_state : PersistedTaskStateKind
  pub workspace_name : Text
  pub final_payload : PersistedFinalPayload V
  pub local_log_path : Text

pub record PersistedStateFile (V : Type 0) : Type 0 where
  pub version : ℕ
  pub tasks : List (PersistedTaskState V)

-- A path as the list of its components.
abbrev pub StatePath : Type 0
StatePath = List Text

pub record PersistedStateStore (V : Type 0) : Type 0 where
  pub state_file_path : StatePath
  pub tasks : Map ℤ (PersistedTaskState V)

-- The values of the serde_json crate that the code makes.
pub record Json (V : Type 0) : Type 0 where
  pub string : Text → V
  pub number : ℤ → V
  pub object : Map Text V → V

abbrev pub current_state_version : ℕ
current_state_version = 1

module _ {V : Type 0} where
  abbrev pub completed : ℤ → Text → Text → Map Text V → PersistedFinalPayload V
  completed exit_code stdout stderr result = record {
    payload_type = codes "task_completed";
    exit_code = some exit_code;
    stdout = stdout;
    stderr = stderr;
    result = result;
    error = [];
  }

  abbrev pub failed : Text → PersistedFinalPayload V
  failed error = record {
    payload_type = codes "task_failed";
    exit_code = none;
    stdout = [];
    stderr = [];
    result = [];
    error = error;
  }

  abbrev pub default_payload : PersistedFinalPayload V
  default_payload = record {
    payload_type = [];
    exit_code = none;
    stdout = [];
    stderr = [];
    result = [];
    error = [];
  }

module _ {V : Type 0} (json : Json V) where
  -- A text is put into the object if it is not empty.
  abbrev pub text_field : Text → Text → Map Text V
  text_field name [] = []
  text_field name (c ∷ t) = (name, json.string (c ∷ t)) ∷ []

  abbrev pub code_field : Option ℤ → Map Text V
  code_field none = []
  code_field (some exit_code) = (codes "exit_code", json.number exit_code) ∷ []

  abbrev pub result_field : Map Text V → Map Text V
  result_field [] = []
  result_field (e ∷ m) = (codes "result", json.object (e ∷ m)) ∷ []

  unfoldable pub to_state_sync_payload : PersistedFinalPayload V → V
  to_state_sync_payload p = json.object (
      text_field (codes "type") p.payload_type
      ++ (code_field p.exit_code
          ++ (text_field (codes "stdout") p.stdout
              ++ (text_field (codes "stderr") p.stderr
                  ++ (result_field p.result ++ text_field (codes "error") p.error)))))

  abbrev pub state_name : PersistedTaskStateKind → Text
  state_name running = codes "RUNNING"
  state_name completed_pending_sync = codes "COMPLETED_PENDING_SYNC"
  state_name failed_pending_sync = codes "FAILED_PENDING_SYNC"
  state_name lost_on_restart = codes "LOST_ON_RESTART"

  unfoldable pub from_persisted : PersistedTaskState V → StateSyncTask V
  from_persisted task = record {
    task_id = task.task_id;
    local_state = state_name task.local_state;
    workspace_name = task.workspace_name;
    final_payload = to_state_sync_payload task.final_payload;
    has_local_log = not (is_empty task.local_log_path);
  }

abbrev pub lost : PersistedTaskStateKind → PersistedTaskStateKind
lost running = lost_on_restart
lost state = state

abbrev pub is_running : PersistedTaskStateKind → Bool
is_running running = true
is_running state = false

-- A stable sort puts an entry before those with its own key that stood behind it.
unfoldable pub insert_sorted {ℓ} : {A : Type ℓ} → (A → ℤ) → A → List A → List A
insert_sorted key x [] = x ∷ []
insert_sorted key x (y ∷ l) =
    let rest = insert_sorted key x l in if leb_ℤ (key x) (key y) then x ∷ y ∷ l else y ∷ rest

-- `sort_by_key`
unfoldable pub sort_by_key {ℓ} : {A : Type ℓ} → (A → ℤ) → List A → List A
unfolding insert_sorted
sort_by_key key [] = []
sort_by_key key (x ∷ l) = insert_sorted key x (sort_by_key key l)

module _ {V : Type 0} where
  unfoldable pub recover_tasks : Map ℤ (PersistedTaskState V) → Bool × Map ℤ (PersistedTaskState V)
  recover_tasks [] = (false, [])
  recover_tasks ((id, task) ∷ m) =
      let rest = recover_tasks m in
      (
        is_running task.local_state || rest.0,
        (id, record task { local_state = lost task.local_state }) ∷ rest.1,
      )

  -- Whether it changed anything, and the store.
  unfoldable pub recover_after_restart : PersistedStateStore V → Bool × PersistedStateStore V
  unfolding recover_tasks
  recover_after_restart s = let r = recover_tasks s.tasks in (r.0, record s { tasks = r.1 })

  unfoldable pub upsert_running : ℤ → Text → Text → PersistedStateStore V → PersistedStateStore V
  upsert_running task_id workspace_name local_log_path s = record s {
    tasks =
        insert task_id
          (record {
            task_id = task_id;
            local_state = running;
            workspace_name = workspace_name;
            final_payload = default_payload;
            local_log_path = local_log_path;
          })
          s.tasks;
  }

  unfoldable pub mark_completed :
      ℤ → Text → Text → ℤ → Text → Text → Map Text V → PersistedStateStore V → PersistedStateStore V
  mark_completed task_id workspace_name local_log_path exit_code stdout stderr result s = record s {
    tasks =
        insert task_id
          (record {
            task_id = task_id;
            local_state = completed_pending_sync;
            workspace_name = workspace_name;
            final_payload = completed exit_code stdout stderr result;
            local_log_path = local_log_path;
          })
          s.tasks;
  }

  unfoldable pub mark_failed :
      ℤ → Text → Text → Text → PersistedStateStore V → PersistedStateStore V
  mark_failed task_id workspace_name local_log_path error s = record s {
    tasks =
        insert task_id
          (record {
            task_id = task_id;
            local_state = failed_pending_sync;
            workspace_name = workspace_name;
            final_payload = failed error;
            local_log_path = local_log_path;
          })
          s.tasks;
  }

  -- `remove`: the task that was there, and the store.
  unfoldable pub remove_task :
      ℤ → PersistedStateStore V → Option (PersistedTaskState V) × PersistedStateStore V
  remove_task task_id s = (get task_id s.tasks, record s { tasks = remove task_id s.tasks })

  -- `get`
  unfoldable pub get_task : ℤ → PersistedStateStore V → Option (PersistedTaskState V)
  get_task task_id s = get task_id s.tasks

  abbrev pub id_of : PersistedTaskState V → ℤ
  id_of task = task.task_id

  abbrev pub values : Map ℤ (PersistedTaskState V) → List (PersistedTaskState V)
  values [] = []
  values ((id, task) ∷ m) = task ∷ values m

  unfoldable pub snapshot : PersistedStateStore V → List (PersistedTaskState V)
  unfolding sort_by_key
  snapshot s = sort_by_key id_of (values s.tasks)
