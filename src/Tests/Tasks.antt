-- ===== src/Tests/Tasks.antt =====
-- The agent's tasks and their persisted states at concrete inputs.
use tasknexus_client_agent.Prelude.{
  ℕ, ℤ, pos, int_eq, true, false, ◌==◌, none, some, false≢true, List, [], ◌∷◌, ◌≡◌, refl, get,
  is_some, inr,
}
use tasknexus_client_agent.Text.{Text, codes}
use tasknexus_client_agent.Error.{ok, err, execution}
use tasknexus_client_agent.Config.{default_config}
use tasknexus_client_agent.Client.Message.{
  TaskDispatchData, TaskStateAckData, AgentUpdateData, StateSyncAction, task_dispatch, agent_update,
}
use tasknexus_client_agent.Client.Connection.{new_client, clear_task_log_ack}
use tasknexus_client_agent.Store.{PersistedStateStore, upsert_running, mark_failed, get_task}
use tasknexus_client_agent.Store.Inv.{start_op, fail_op, apply, IsValid, apply-IsValid}
use tasknexus_client_agent.Store.Disk.{Codec, Disk, state_path, file_of, load, save}
use tasknexus_client_agent.Store.Disk.RoundTrip.{load-save}
use tasknexus_client_agent.Executor.Process.{ExecutionResult}
use tasknexus_client_agent.Agent.{Agent, begin_dispatch, finish_dispatch, handle_task_state_ack}
use tasknexus_client_agent.Store.{Json}
use tasknexus_client_agent.Agent.Reach.{
  starts, begins, ends, acks, runs, IsTracked, Reach-IsTracked,
}
use tasknexus_client_agent.Agent.Outcome.{report_of, sent, finish_dispatch-reports}
use tasknexus_client_agent.Agent.Control.{Answers, handle_agent_update, handle_state_sync_result}
use tasknexus_client_agent.Agent.Control.Exclusive.{Updated, handle_agent_update-Updated}
use tasknexus_client_agent.Agent.Control.Actions.{handle_state_sync_result-IsTracked}

abbrev home : List Text
home = codes "work" ∷ []

abbrev no_tasks : PersistedStateStore ℕ
no_tasks = record { state_file_path = state_path home; tasks = [] }

abbrev two_tasks : PersistedStateStore ℕ
two_tasks =
    apply (fail_op (pos 3) (codes "w") (codes "3.log") (codes "e"))
      (apply (start_op (pos 7) (codes "w") (codes "7.log")) no_tasks)

two_tasks-IsValid : IsValid two_tasks
two_tasks-IsValid =
    apply-IsValid (fail_op (pos 3) (codes "w") (codes "3.log") (codes "e"))
      (apply (start_op (pos 7) (codes "w") (codes "7.log")) no_tasks)
      (apply-IsValid (start_op (pos 7) (codes "w") (codes "7.log")) no_tasks tt)

-- A crate that writes one file, and reads it back.
abbrev pub codec : Codec ℕ
codec = record {
  to_string_pretty = λ file. inr (codes "{}");
  from_str = λ text. inr (file_of two_tasks);
  display = λ path. codes "state";
}

abbrev disk : Disk
disk = record { content = none; read_fault = none; dir_fault = none; write_fault = none }

two_tasks-path : two_tasks.state_file_path ≡ state_path home
unfolding upsert_running mark_failed
two_tasks-path = refl

load-save_example :
    ((save codec two_tasks disk).0 ≡ ok tt)
    × (t : PersistedStateStore ℕ) × (load codec home (save codec two_tasks disk).1 ≡ ok t)
    × ((id : ℤ) → get_task id t ≡ get_task id two_tasks)
load-save_example =
    load-save codec home two_tasks disk (codes "{}") two_tasks-path two_tasks-IsValid refl refl refl
      refl refl

abbrev an_agent : Agent ℕ
an_agent = record {
  client = new_client (default_config none);
  running_tasks =
      (pos 7, record { workspace_name = codes "w"; cancel_sent = false; log_path = codes "7.log" })
      ∷ [];
  persisted_state = two_tasks;
  disk = disk;
  update_in_progress = false;
  removed_files = [];
}

abbrev pub dispatch_of : ℤ → TaskDispatchData
dispatch_of t = record {
  task_id = t;
  workspace_name = codes "w";
  execution_mode = codes "command";
  command = codes "make";
  code = none;
  client_repo_url = none;
  client_repo_ref = codes "main";
  client_repo_token = none;
  timeout = 60;
  environment = [];
  prepare_repo_before_execute = false;
  cleanup_workspace_on_success = false;
}

abbrev failed_run : ExecutionResult ℕ
failed_run = record {
  exit_code = pos 2;
  stdout = codes "out";
  stderr = codes "err";
  timed_out = false;
  cancelled = false;
  result = [];
}

abbrev pub decimal : ℕ → Text
decimal n = codes "60"

finish_dispatch-reports_example :
    let b =
      finish_dispatch codec decimal
        (dispatch_of (pos 7))
        failed_run
        true
        (codes "7.log")
        an_agent in
    (b.client
      ≡ clear_task_log_ack
          (pos 7)
          (sent (report_of (get_task (pos 7) b.persisted_state)) an_agent.client))
    × ((u : ℤ)
        → (pos 7 == u) ≡ false
        → get_task u b.persisted_state ≡ get_task u an_agent.persisted_state)
    × (get (pos 7) b.running_tasks ≡ none)
    × (is_some (get_task (pos 7) b.persisted_state) ≡ true
        → b.removed_files ≡ an_agent.removed_files)
finish_dispatch-reports_example =
    finish_dispatch-reports codec decimal (dispatch_of (pos 7)) failed_run true (codes "7.log")
      an_agent

abbrev refusal : TaskStateAckData
refusal = record { task_id = pos 7; status = codes "CANCELLED"; accepted = false }

abbrev pub json : Json ℕ
json = record { string = λ t. 0; number = λ n. 1; object = λ m. 2 }

-- A start, a dispatch, its end with an error, and the server's acknowledgement.
abbrev pub at_start : Agent ℕ
at_start = record an_agent { running_tasks = []; persisted_state = no_tasks }

abbrev ran : Agent ℕ
ran =
    finish_dispatch codec decimal (dispatch_of (pos 7)) failed_run true (codes "7.log")
      (begin_dispatch codec (inr (codes "7.log")) (dispatch_of (pos 7)) at_start).1

nothing_kept : (t : ℤ) → runs (get_task t at_start.persisted_state) ≡ false
unfolding get_task get
nothing_kept t = refl

Reach-IsTracked_example : IsTracked (handle_task_state_ack codec refusal ran)
Reach-IsTracked_example = Reach-IsTracked codec decimal (handle_task_state_ack codec refusal ran) (
    acks refusal ran (
      ends (dispatch_of (pos 7)) failed_run true (codes "7.log")
        (begin_dispatch codec (inr (codes "7.log")) (dispatch_of (pos 7)) at_start).1
        (begins (inr (codes "7.log")) (dispatch_of (pos 7)) at_start
          (starts at_start refl nothing_kept))))

-- An agent that is idle, and an update that fails.
abbrev pub answers : Answers ℕ
answers = record {
  log = inr (codes "9.log");
  run = failed_run;
  flushed = true;
  updated = err (execution (codes "no network"));
}

abbrev update_data : AgentUpdateData
update_data = record { task_id = pos 9; download_url = none }

handle_agent_update-Updated_example :
    Updated codec decimal json answers
      (pos 9)
      at_start
      (handle_agent_update codec decimal json answers update_data at_start)
handle_agent_update-Updated_example =
    handle_agent_update-Updated codec decimal json answers update_data at_start

-- A task that the server starts, one that it cancels, and an update.
abbrev actions : List (StateSyncAction × Answers ℕ)
actions =
    (
      record {
        task_id = pos 8;
        action = codes "start";
        backend_status = [];
        payload = some (task_dispatch (dispatch_of (pos 8)));
        server_log_offset = 0;
      },
      answers,
    )
    ∷ (
      record {
        task_id = pos 3;
        action = codes "cancel";
        backend_status = [];
        payload = none;
        server_log_offset = 0;
      },
      answers,
    )
    ∷ (
      record {
        task_id = pos 9;
        action = codes "start";
        backend_status = [];
        payload = some (agent_update update_data);
        server_log_offset = 0;
      },
      answers,
    )
    ∷ []

at_start-IsTracked : IsTracked at_start
unfolding get_task get
at_start-IsTracked = λ t h. elim (false≢true h) [ ]

handle_state_sync_result-IsTracked_example :
    IsTracked (handle_state_sync_result codec decimal json actions at_start).1
handle_state_sync_result-IsTracked_example =
    handle_state_sync_result-IsTracked codec decimal json actions at_start at_start-IsTracked
