-- ===== src/Agent/Control/Exclusive.antt =====
-- What a self-update in agent/src/main.rs does where no other handler comes in between.
use tasknexus_client_agent.Prelude.{
  ℕ, ℤ, int_eq, ◌≡◌, refl, sym, ap, ◌∙◌, Bool, true, false, Option, none, some, [], ◌∷◌, length,
  ltb, if-both, arith, Map, ◌⊎◌, inl, inr, ◌||◌,
}
use tasknexus_client_agent.Text.{Text}
use tasknexus_client_agent.Error.{Result, ok, err, AgentError}
use tasknexus_client_agent.Client.Message.{AgentUpdateData}
use tasknexus_client_agent.Store.{
  Json, PersistedTaskState, mark_completed, mark_failed, get_task, PersistedTaskStateKind,
  completed_pending_sync, failed_pending_sync,
}
use tasknexus_client_agent.Store.Disk.{Codec}
use tasknexus_client_agent.Agent.{Agent, RunningTask, save_persisted_state}
use tasknexus_client_agent.Agent.Outcome.{get_inserted}
use tasknexus_client_agent.Agent.Control.{
  Answers, Exits, begin_update, update_logged, end_update, after_begin, handle_agent_update,
  path_in,
}

none_running : (m : Map ℤ RunningTask) → ltb 0 (length m) ≡ false → m ≡ []
none_running [] h = refl
none_running (entry ∷ m) h = ground arith

abbrev pub is_failed_log : Text ⊎ Text → Bool
is_failed_log (inl e) = true
is_failed_log (inr path) = false

module _ {V : Type 0} (codec : Codec V) (decimal : ℕ → Text) where
  -- An update that begins, of an agent `a`, against one that does not.
  abbrev pub Begun : Text ⊎ Text → Agent V → Bool × Agent V → Type 0
  Begun log a (true, b) =
      (a.update_in_progress ≡ false)
      × (a.running_tasks ≡ [])
      × (b.running_tasks ≡ [])
      × (b.update_in_progress ≡ true)
      × (is_failed_log log ≡ false)
  Begun log a (false, b) =
      (b.update_in_progress ≡ a.update_in_progress)
      × (b.running_tasks ≡ a.running_tasks)
      × (b.persisted_state ≡ a.persisted_state)
      × (b.disk ≡ a.disk)
      × ((a.update_in_progress || (ltb 0 (length a.running_tasks) || is_failed_log log)) ≡ true)

  update_logged-Begun :
      (log : Text ⊎ Text) (task_id : ℤ) (a b : Agent V)
      → a.update_in_progress ≡ false
      → a.running_tasks ≡ []
      → b.running_tasks ≡ a.running_tasks
      → b.update_in_progress ≡ true
      → b.persisted_state ≡ a.persisted_state
      → b.disk ≡ a.disk
      → Begun log a (update_logged codec decimal log task_id b)
  unfolding save_persisted_state
  update_logged-Begun (inl e) task_id a b u idle running flag store disk =
      (sym u, running, store, disk, rw (u, idle) refl)
  update_logged-Begun (inr path) task_id a b u idle running flag store disk =
      (u, idle, running ∙ idle, flag, refl)

  pub begin_update-Begun :
      (log : Text ⊎ Text) (task_id : ℤ) (a : Agent V)
      → Begun log a (begin_update codec decimal log task_id a)
  unfolding begin_update
  begin_update-Begun log task_id a =
      if-both (Begun log a) a.update_in_progress (λ h. (refl, refl, refl, refl, rw h refl))
        (λ h.
          if-both (Begun log a) (ltb 0 (length a.running_tasks))
            (λ k. (sym h, refl, refl, refl, rw (h, k) refl))
            (λ k.
              update_logged-Begun log task_id a _ h (none_running a.running_tasks k) refl refl refl
                refl))

  module _ (json : Json V) where
    -- The state that is kept of the update's task.
    abbrev pub kept_as : ℤ → Agent V → Option (PersistedTaskState V)
    kept_as task_id b = get_task task_id b.persisted_state

    abbrev pub state_of : Option (PersistedTaskState V) → Option PersistedTaskStateKind
    state_of none = none
    state_of (some task) = some task.local_state

    abbrev pub kept_state : ℤ → Agent V → Option PersistedTaskStateKind
    kept_state task_id b = state_of (kept_as task_id b)

    -- What an update does to an agent `a`, where no other handler comes in between. It leaves the
    -- process only with the exit code 42 after the binary was replaced, and then is kept as completed.
    -- It goes on with the flag and the running tasks as they were: if it may not begin, its own task is
    -- kept as before, and if the binary was not replaced, as failed.
    abbrev pub Updated : Answers V → ℤ → Agent V → Exits V → Type 0
    Updated answers task_id a (some code, b) =
        (code ≡ 42)
        × (a.update_in_progress ≡ false)
        × (a.running_tasks ≡ [])
        × (b.running_tasks ≡ [])
        × (is_failed_log answers.log ≡ false)
        × ((version : Text) × (answers.updated ≡ ok version))
        × (kept_state task_id b ≡ some completed_pending_sync)
    Updated answers task_id a (none, b) =
        (b.update_in_progress ≡ a.update_in_progress)
        × (b.running_tasks ≡ a.running_tasks)
        × (((kept_as task_id b ≡ kept_as task_id a)
              × ((a.update_in_progress
                    || (ltb 0 (length a.running_tasks) || is_failed_log answers.log))
                  ≡ true))
            ⊎ (((e : AgentError) × (answers.updated ≡ err e))
                × (kept_state task_id b ≡ some failed_pending_sync)))

    end_update-Updated :
        (answers : Answers V) (updated : Result Text) (path : Text) (task_id : ℤ) (a b : Agent V)
        → answers.updated ≡ updated
        → is_failed_log answers.log ≡ false
        → a.update_in_progress ≡ false
        → a.running_tasks ≡ []
        → b.running_tasks ≡ []
        → Updated answers task_id a (end_update codec decimal json updated path task_id b)
    unfolding end_update save_persisted_state mark_completed mark_failed get_task
    end_update-Updated answers (ok version) path task_id a b is log u idle running = (
      refl,
      u,
      idle,
      running,
      log,
      (version, is),
      ap state_of (get_inserted task_id _ b.persisted_state.tasks),
    )
    end_update-Updated answers (err e) path task_id a b is log u idle running = (
      sym u,
      running ∙ sym idle,
      inr ((e, is), ap state_of (get_inserted task_id _ b.persisted_state.tasks)),
    )

    -- Where no other handler comes in between, an update leaves the process exactly if no update was
    -- in progress, no task was running, its log could be made and the binary was replaced: with the
    -- exit code 42, no task running, and its own task kept as completed. Else it goes on with the flag
    -- and the running tasks as they were, and its own task kept as before if it could not begin, and
    -- as failed if the binary was not replaced.
    pub handle_agent_update-Updated :
        (answers : Answers V) (d : AgentUpdateData) (a : Agent V)
        → Updated answers d.task_id a (handle_agent_update codec decimal json answers d a)
    unfolding handle_agent_update
    handle_agent_update-Updated answers d a = after _ (begin_update-Begun answers.log d.task_id a)
      where
        after :
            (r : Bool × Agent V)
            → Begun answers.log a r
            → Updated answers d.task_id a (after_begin codec decimal json answers d.task_id r)
        after (false, b) p = (p.0, p.1, inl (ap (get_task d.task_id) p.2, p.4))
        after (true, b) p =
            end_update-Updated answers answers.updated (path_in answers.log) d.task_id a b refl p.4
              p.0 p.1 p.2
