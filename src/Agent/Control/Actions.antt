-- ===== src/Agent/Control/Actions.antt =====
-- The actions of a state sync in agent/src/main.rs, and the tasks that are kept as running.
use tasknexus_client_agent.Prelude.{
  ℕ, ℤ, int_eq, ◌≡◌, refl, sym, ap, ◌∙◌, Bool, true, false, false≢true, Option, none, some, List,
  [], ◌∷◌, if◌then◌else◌, if-both, get, ◌⊎◌, inl, inr, ◌==◌, ==_refl, is_some, text_eq, length, ltb,
}
use tasknexus_client_agent.Text.{Text, codes}
use tasknexus_client_agent.Error.{Result, ok, err}
use tasknexus_client_agent.Client.Message.{
  TaskDispatchData, AgentUpdateData, AgentRestartData, StateSyncPayload, task_dispatch,
  agent_update, agent_restart, StateSyncAction,
}
use tasknexus_client_agent.Store.{
  Json, PersistedTaskState, upsert_running, mark_completed, mark_failed, get_task,
  PersistedTaskStateKind, completed_pending_sync, failed_pending_sync, is_running,
}
use tasknexus_client_agent.Store.Disk.{Codec}
use tasknexus_client_agent.Agent.{
  Agent, begin_dispatch, save_persisted_state, clear_persisted_task_state, handle_task_cancel,
}
use tasknexus_client_agent.Agent.Clearing.{clear-IsCleared}
use tasknexus_client_agent.Agent.Reach.{
  IsTracked, IsTracked-step, inserted_other, runs, handle_task_cancel-IsTracked,
  begin_dispatch-IsTracked, finish_dispatch-IsTracked,
}
use tasknexus_client_agent.Agent.Control.Exclusive.{state_of, Updated, handle_agent_update-Updated}
use tasknexus_client_agent.Agent.Control.{
  report_started, Answers, Exits, begin_update, update_logged, end_update, after_begin,
  handle_agent_update, path_in, restart_logged, handle_agent_restart, after_dispatch,
  handle_task_dispatch, start_action, handle_action, unless_exited, handle_state_sync_result,
}

module _ {V : Type 0} (codec : Codec V) (decimal : ℕ → Text) where
  -- Nothing but the client and the flag differs.
  same-IsTracked :
      (a b : Agent V)
      → b.persisted_state ≡ a.persisted_state
      → b.running_tasks ≡ a.running_tasks
      → IsTracked a
      → IsTracked b
  same-IsTracked a b store running h t r =
      ap (λ m. is_some (get t m)) running ∙ h t (ap (λ s. runs (get_task t s)) (sym store) ∙ r)

  clear-IsTracked :
      (t : ℤ) (a : Agent V) → IsTracked a → IsTracked (clear_persisted_task_state codec t a)
  clear-IsTracked t a h =
      let c = clear-IsCleared codec t a in
      let b = clear_persisted_task_state codec t a in
      IsTracked-step t a b h
        (λ u e. c.0.0 u ∙ ap (λ k. if k then none else get_task u a.persisted_state) e)
        (λ u e. ap (get u) c.1)
        (λ r.
          elim (false≢true (
            sym (
              ap runs
                (c.0.0 t ∙ ap (λ k. if k then none else get_task t a.persisted_state) (==_refl t)))
            ∙ r)) [ ])

  handle_task_dispatch-IsTracked :
      (answers : Answers V) (d : TaskDispatchData) (a : Agent V)
      → IsTracked a
      → IsTracked (handle_task_dispatch codec decimal answers d a)
  unfolding handle_task_dispatch
  handle_task_dispatch-IsTracked answers d a h =
      ended (begin_dispatch codec answers.log d a)
        (begin_dispatch-IsTracked codec answers.log d a h)
    where
      ended :
          (r : Bool × Agent V)
          → IsTracked r.1
          → IsTracked (after_dispatch codec decimal answers d r)
      ended (false, b) k = k
      ended (true, b) k =
          finish_dispatch-IsTracked codec decimal d answers.run answers.flushed
            (path_in answers.log) b k

  handle_agent_restart-IsTracked :
      (log : Text ⊎ Text) (d : AgentRestartData) (a : Agent V)
      → IsTracked a
      → IsTracked (handle_agent_restart codec decimal log d a).1
  unfolding handle_agent_restart
  handle_agent_restart-IsTracked log d a h =
      if-both (λ (out : Exits V). IsTracked out.1) (ltb 0 (length a.running_tasks)) (λ _. h)
        (λ _. logged log)
    where
      logged :
          (log : Text ⊎ Text)
          → IsTracked (restart_logged codec decimal log d.task_id (report_started d.task_id a)).1
      logged (inl e) = h
      logged (inr path) = h

  module _ (json : Json V) where
    end_update-other :
        (updated : Result Text) (path : Text) (t u : ℤ) (b : Agent V)
        → (t == u) ≡ false
        → get_task u (end_update codec decimal json updated path t b).1.persisted_state
          ≡ get_task u b.persisted_state
    unfolding end_update save_persisted_state get_task mark_completed mark_failed
    end_update-other (ok version) path t u b e = inserted_other t u _ b.persisted_state.tasks e
    end_update-other (err error) path t u b e = inserted_other t u _ b.persisted_state.tasks e

    logged-other :
        (log : Text ⊎ Text) (answers : Answers V) (t u : ℤ) (b : Agent V)
        → (t == u) ≡ false
        → get_task u
            (after_begin codec decimal json answers t
              (update_logged codec decimal log t b)).1.persisted_state
          ≡ get_task u b.persisted_state
    unfolding save_persisted_state get_task upsert_running
    logged-other (inl error) answers t u b e = refl
    logged-other (inr path) answers t u b e =
        end_update-other answers.updated (path_in answers.log) t u _ e
        ∙ inserted_other t u _ b.persisted_state.tasks e

    -- An update touches what is kept of no other task.
    handle_agent_update-other :
        (answers : Answers V) (d : AgentUpdateData) (u : ℤ) (a : Agent V)
        → (d.task_id == u) ≡ false
        → get_task u (handle_agent_update codec decimal json answers d a).1.persisted_state
          ≡ get_task u a.persisted_state
    unfolding handle_agent_update begin_update
    handle_agent_update-other answers d u a e =
        let P : Bool × Agent V → Type 0 = λ r.
          get_task u (after_begin codec decimal json answers d.task_id r).1.persisted_state
          ≡ get_task u a.persisted_state in
        if-both P a.update_in_progress (λ _. refl)
          (λ _.
            if-both P (ltb 0 (length a.running_tasks)) (λ _. refl)
              (λ _. logged-other answers.log answers d.task_id u _ e))

    ended_not_running :
        (o : Option (PersistedTaskState V)) (state : PersistedTaskStateKind)
        → state_of codec decimal json o ≡ some state
        → is_running state ≡ false
        → runs o ≡ true
        → false ≡ true
    ended_not_running none state h k r = r
    ended_not_running (some task) state h k r = sym k ∙ sym (ap or_false h) ∙ r
      where
        or_false : Option PersistedTaskStateKind → Bool
        or_false none = false
        or_false (some s) = is_running s

    handle_agent_update-IsTracked :
        (answers : Answers V) (d : AgentUpdateData) (a : Agent V)
        → IsTracked a
        → IsTracked (handle_agent_update codec decimal json answers d a).1
    handle_agent_update-IsTracked answers d a h =
        step (handle_agent_update codec decimal json answers d a)
          (handle_agent_update-Updated codec decimal json answers d a)
          (λ u e. handle_agent_update-other answers d u a e)
      where
        step :
            (out : Exits V)
            → Updated codec decimal json answers d.task_id a out
            → ((u : ℤ)
                → (d.task_id == u) ≡ false
                → get_task u out.1.persisted_state ≡ get_task u a.persisted_state)
            → IsTracked out.1
        step (some code, b) p others =
            IsTracked-step d.task_id a b h others (λ u e. ap (get u) (p.3 ∙ sym p.2))
              (λ r. elim (false≢true (ended_not_running _ completed_pending_sync p.6 refl r)) [ ])
        step (none, b) p others =
            IsTracked-step d.task_id a b h others (λ u e. ap (get u) p.1)
              (λ r. elim p.2 [
                | inl same ↦
                    ap (λ m. is_some (get d.task_id m)) p.1 ∙ h d.task_id (ap runs (sym same.0) ∙ r)
                | inr ended ↦
                    elim (false≢true (ended_not_running _ failed_pending_sync ended.1 refl r)) [ ]
              ])

    handle_action-IsTracked :
        (answers : Answers V) (action : StateSyncAction) (a : Agent V)
        → IsTracked a
        → IsTracked (handle_action codec decimal json answers action a).1
    unfolding handle_action
    handle_action-IsTracked answers action a h =
        let P : Exits V → Type 0 = λ out. IsTracked out.1 in
        if-both P (action.action == codes "start") (λ _. started action.payload)
          (λ _.
            if-both P (action.action == codes "keep_running") (λ _. h)
              (λ _.
                if-both P (action.action == codes "cancel")
                  (λ _.
                    clear-IsTracked action.task_id (handle_task_cancel action.task_id a)
                      (handle_task_cancel-IsTracked action.task_id a h))
                  (λ _.
                    if-both P (action.action == codes "clear")
                      (λ _. clear-IsTracked action.task_id a h) (λ _. h))))
      where
        started :
            (payload : Option StateSyncPayload)
            → IsTracked (start_action codec decimal json answers payload a).1
        started none = h
        started (some (task_dispatch d)) =
            handle_task_dispatch-IsTracked answers d _ (clear-IsTracked d.task_id _ h)
        started (some (agent_update d)) = handle_agent_update-IsTracked answers d a h
        started (some (agent_restart d)) = handle_agent_restart-IsTracked answers.log d a h

    -- Whatever actions a state sync has, and however their handlers end: only a task that is running
    -- is kept as running, also when an action makes the agent leave its process.
    pub handle_state_sync_result-IsTracked :
        (actions : List (StateSyncAction × Answers V)) (a : Agent V)
        → IsTracked a
        → IsTracked (handle_state_sync_result codec decimal json actions a).1
    unfolding handle_state_sync_result
    handle_state_sync_result-IsTracked [] a h = h
    handle_state_sync_result-IsTracked ((action, answers) ∷ actions) a h =
        rest (handle_action codec decimal json answers action a)
          (handle_action-IsTracked answers action a h)
          (λ b k. handle_state_sync_result-IsTracked actions b k)
      where
        rest :
            (out : Exits V)
            → IsTracked out.1
            → ((b : Agent V)
                → IsTracked b
                → IsTracked (handle_state_sync_result codec decimal json actions b).1)
            → IsTracked
                (unless_exited codec decimal json out
                  (λ after. handle_state_sync_result codec decimal json actions after)).1
        rest (some code, b) k f = k
        rest (none, b) k f = f b k
