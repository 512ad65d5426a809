-- ===== src/Agent/Control.antt =====
-- The self-update, the restart and the actions of a state sync in agent/src/main.rs.
pub mod Exclusive
pub mod Actions
use tasknexus_client_agent.Prelude.{
  ℕ, ℤ, pos, int_eq, Bool, true, false, ◌&&◌, not, Option, none, some, List, [], ◌∷◌, ◌++◌,
  if◌then◌else◌, is_empty, length, ltb, Map, text_eq, ◌==◌, ◌⊎◌, inl, inr,
}
use tasknexus_client_agent.Text.{Text, codes}
use tasknexus_client_agent.Error.{AgentError, Result, ok, err, display}
use tasknexus_client_agent.Client.Message.{
  TaskDispatchData, AgentUpdateData, AgentRestartData, StateSyncPayload, task_dispatch,
  agent_update, agent_restart, StateSyncAction,
}
use tasknexus_client_agent.Client.Connection.{
  send_task_failed, send_task_started, send_task_completed, clear_task_log_ack, record_task_log_ack,
}
use tasknexus_client_agent.Store.{Json, upsert_running, mark_completed, mark_failed}
use tasknexus_client_agent.Store.Disk.{Codec}
use tasknexus_client_agent.Executor.Process.{ExecutionResult}
use tasknexus_client_agent.Agent.{
  Agent, save_persisted_state, clear_persisted_task_state, handle_task_cancel, begin_dispatch,
  finish_dispatch,
}

-- How the parts end that a handler waits for: the task's log, as the path of its file; the run of the
-- task; the last sync of its log; and the self-update, as the new version.
pub record Answers (V : Type 0) : Type 0 where
  pub log : Text ⊎ Text
  pub run : ExecutionResult V
  pub flushed : Bool
  pub updated : Result Text

-- An agent that has left its process has the exit code with it.
abbrev pub Exits : Type 0 → Type 0
Exits V = Option ℕ × Agent V

abbrev pub self_update_name : Text
self_update_name = codes "[self_update]"

abbrev pub path_in : Text ⊎ Text → Text
path_in (inl e) = []
path_in (inr path) = path

module _ {V : Type 0} where
  abbrev pub report_failed : ℤ → Text → Agent V → Agent V
  report_failed task_id error a = record a { client = (send_task_failed task_id error a.client).1 }

  abbrev pub report_completed : ℤ → Map Text V → Agent V → Agent V
  report_completed task_id result a = record a {
    client = (send_task_completed task_id (pos 0) [] [] result a.client).1;
  }

  abbrev pub forget_ack : ℤ → Agent V → Agent V
  forget_ack task_id a = record a { client = clear_task_log_ack task_id a.client }

  abbrev pub report_started : ℤ → Agent V → Agent V
  report_started task_id a = record a {
    client = clear_task_log_ack task_id (send_task_started task_id a.client).1;
  }

  abbrev pub set_update : Bool → Agent V → Agent V
  set_update flag a = record a { update_in_progress = flag }

  abbrev pub still_running : (ℕ → Text) → Text → Agent V → Text
  still_running decimal doing a =
      codes "Cannot "
      ++ (doing
          ++ (codes " while "
              ++ (decimal (length a.running_tasks) ++ codes " task(s) are still running")))

module _ {V : Type 0} (codec : Codec V) (decimal : ℕ → Text) where
  -- What `handle_agent_update` does once its log has been made, or has not.
  abbrev pub update_logged : Text ⊎ Text → ℤ → Agent V → Bool × Agent V
  update_logged (inl e) task_id a = (
    false,
    set_update false (report_failed task_id (codes "Failed to initialize task logs: " ++ e) a),
  )
  update_logged (inr log_path) task_id a = (
    true,
    save_persisted_state codec (record a {
      persisted_state = upsert_running task_id self_update_name log_path a.persisted_state;
    }),
  )

  -- `handle_agent_update` up to `perform_self_update`, as one step: no other handler comes in between.
  -- `Agent.Interleaving` has it cut at its locks, and `begin_update-turns` that both agree.
  unfoldable pub begin_update : Text ⊎ Text → ℤ → Agent V → Bool × Agent V
  unfolding save_persisted_state
  begin_update log task_id a =
      if a.update_in_progress
      then (false, report_failed task_id (codes "Self-update already running") a)
      else if ltb 0 (length a.running_tasks)
      then (
        false,
        set_update false
            (report_failed task_id (still_running decimal (codes "update") a) (set_update true a)),
      )
      else update_logged log task_id (report_started task_id (set_update true a))

  module _ (json : Json V) where
    abbrev pub version_result : Text → Map Text V
    version_result version = (codes "target_version", json.string version) ∷ []

    -- `handle_agent_update` from the end of `perform_self_update` on; a success leaves the process.
    unfoldable pub end_update : Result Text → Text → ℤ → Agent V → Exits V
    unfolding save_persisted_state
    end_update (ok version) log_path task_id a = (
      some 42,
      report_completed task_id (version_result version) (
          save_persisted_state codec (record a {
            persisted_state =
                mark_completed task_id self_update_name log_path (pos 0) [] []
                  (version_result version) a.persisted_state;
          })),
    )
    end_update (err e) log_path task_id a =
        let message = codes "Self-update failed: " ++ display e in
        let stored = save_persisted_state codec (record a {
          persisted_state = mark_failed task_id self_update_name log_path message a.persisted_state;
        }) in
        (none, set_update false (forget_ack task_id (report_failed task_id message stored)))

    abbrev pub after_begin : Answers V → ℤ → Bool × Agent V → Exits V
    after_begin answers task_id (true, a) =
        end_update answers.updated (path_in answers.log) task_id a
    after_begin answers task_id (false, a) = (none, a)

    unfoldable pub handle_agent_update : Answers V → AgentUpdateData → Agent V → Exits V
    unfolding begin_update end_update
    handle_agent_update answers d a =
        after_begin answers d.task_id (begin_update answers.log d.task_id a)

  abbrev pub restart_logged : Text ⊎ Text → ℤ → Agent V → Exits V
  restart_logged (inl e) task_id a =
      (none, report_failed task_id (codes "Failed to initialize task logs: " ++ e) a)
  restart_logged (inr log_path) task_id a = (some 42, report_completed task_id [] a)

  unfoldable pub handle_agent_restart : Text ⊎ Text → AgentRestartData → Agent V → Exits V
  handle_agent_restart log d a =
      if ltb 0 (length a.running_tasks)
      then (none, report_failed d.task_id (still_running decimal (codes "restart") a) a)
      else restart_logged log d.task_id (report_started d.task_id a)

  abbrev pub after_dispatch : Answers V → TaskDispatchData → Bool × Agent V → Agent V
  after_dispatch answers d (true, a) =
      finish_dispatch codec decimal d answers.run answers.flushed (path_in answers.log) a
  after_dispatch answers d (false, a) = a

  -- All of `handle_task_dispatch`, where no other handler comes in between.
  unfoldable pub handle_task_dispatch : Answers V → TaskDispatchData → Agent V → Agent V
  unfolding begin_dispatch finish_dispatch
  handle_task_dispatch answers d a = after_dispatch answers d (begin_dispatch codec answers.log d a)

  module _ (json : Json V) where
    abbrev pub start_action : Answers V → Option StateSyncPayload → Agent V → Exits V
    start_action answers none a = (none, a)
    start_action answers (some (task_dispatch d)) a = (
      none,
      handle_task_dispatch answers d
          (clear_persisted_task_state codec d.task_id (forget_ack d.task_id a)),
    )
    start_action answers (some (agent_update d)) a = handle_agent_update json answers d a
    start_action answers (some (agent_restart d)) a = handle_agent_restart answers.log d a

    unfoldable pub handle_action : Answers V → StateSyncAction → Agent V → Exits V
    unfolding handle_task_dispatch handle_agent_update handle_agent_restart
        clear_persisted_task_state handle_task_cancel
    handle_action answers action a =
        if action.action == codes "start"
        then start_action answers action.payload a
        else if action.action == codes "keep_running"
        then (
          none,
          record a {
            client = record_task_log_ack action.task_id action.server_log_offset a.client;
          },
        )
        else if action.action == codes "cancel"
        then (
          none,
          clear_persisted_task_state codec action.task_id (handle_task_cancel action.task_id a),
        )
        else if action.action == codes "clear"
        then (none, clear_persisted_task_state codec action.task_id a)
        else (none, a)

    abbrev pub unless_exited : Exits V → (Agent V → Exits V) → Exits V
    unless_exited (some code, a) rest = (some code, a)
    unless_exited (none, a) rest = rest a

    -- Each action comes with the answers that its handler gets.
    unfoldable pub handle_state_sync_result : List (StateSyncAction × Answers V) → Agent V → Exits V
    unfolding handle_action
    handle_state_sync_result [] a = (none, a)
    handle_state_sync_result ((action, answers) ∷ actions) a =
        unless_exited (handle_action answers action a)
          (λ after. handle_state_sync_result actions after)
