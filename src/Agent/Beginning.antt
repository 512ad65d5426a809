-- ===== src/Agent/Beginning.antt =====
-- The beginning of a task in agent/src/main.rs: what becomes of a dispatch.
use tasknexus_client_agent.Client.Connection.{
  AgentClient, send_task_failed, send_task_started, clear_task_log_ack,
}
use tasknexus_client_agent.Prelude.{
  ℤ, int_eq, text_eq, eqb_ℤ_iff, ◌==◌, Bool, true, false, false≢true, Option, none, some, [], ◌≡◌,
  refl, sym, ap, ◌∙◌, subst, if◌then◌else◌, if-both, is_some, Map, get, insert, remove, get-insert,
  get-remove, contains_key, ◌⊎◌, inl, inr, Bool-cases, ◌++◌,
}
use tasknexus_client_agent.Text.{Text, codes}
use tasknexus_client_agent.Client.Message.{TaskDispatchData}
use tasknexus_client_agent.Store.{running, upsert_running, get_task, default_payload}
use tasknexus_client_agent.Store.Inv.{entry}
use tasknexus_client_agent.Store.Disk.{Codec, save}
use tasknexus_client_agent.Agent.{
  Agent, RunningTask, begin_dispatch, with_log, with_log_path, save_persisted_state,
}
use tasknexus_client_agent.Agent.Outcome.{get_inserted}

module _ {V : Type 0} (codec : Codec V) where
  -- The server was told that the task starts.
  abbrev pub announced : TaskDispatchData → Agent V → AgentClient V
  announced d a = clear_task_log_ack d.task_id (send_task_started d.task_id a.client).1

  -- Why a task is not run, and what the server was told.
  abbrev pub IsRefused : Text ⊎ Text → TaskDispatchData → Agent V → AgentClient V → Type 0
  IsRefused log d a client =
      ((a.update_in_progress ≡ true)
        × (client
            ≡ (send_task_failed d.task_id (codes "Agent is updating; task rejected") a.client).1))
      ⊎ (((a.update_in_progress ≡ false)
            × (is_some (get d.task_id a.running_tasks) ≡ true)
            × (client ≡ a.client))
          ⊎ ((e : Text) × (log ≡ inl e)
              × (client
                  ≡ (send_task_failed d.task_id (codes "Failed to initialize task logs: " ++ e)
                      (announced d a)).1)))

  -- What becomes of a dispatch: a task that is to run was not running, and is now, with its entry, which
  -- is saved; one that is not to run leaves the running tasks and the kept states as they were.
  abbrev pub IsBegun : Text ⊎ Text → TaskDispatchData → Agent V → Bool × Agent V → Type 0
  IsBegun log d a (true, b) =
      (path : Text) × (log ≡ inr path)
      × (a.update_in_progress ≡ false)
      × (get d.task_id a.running_tasks ≡ none)
      × (get d.task_id b.running_tasks
          ≡ some
              (record { workspace_name = d.workspace_name; cancel_sent = false; log_path = path }))
      × (get_task d.task_id b.persisted_state
          ≡ some (entry d.task_id running d.workspace_name default_payload path))
      × (b.client ≡ announced d a)
      × (b.disk ≡ (save codec b.persisted_state a.disk).1)
  IsBegun log d a (false, b) =
      ((u : ℤ) → get u b.running_tasks ≡ get u a.running_tasks)
      × (b.persisted_state ≡ a.persisted_state)
      × (b.disk ≡ a.disk)
      × IsRefused log d a b.client

  pub none_of : {A : Type 0} (o : Option A) → is_some o ≡ false → o ≡ none
  none_of none h = refl
  none_of (some x) h = elim (false≢true (sym h)) [ ]

  undone :
      (t u : ℤ) (task : RunningTask) (m : Map ℤ RunningTask)
      → get t m ≡ none
      → get u (remove t (insert t task m)) ≡ get u m
  undone t u task m h = get-remove t u (insert t task m) ∙ elim (Bool-cases (t == u)) [
    | inl b ↦ rw b (sym (subst (λ j. get j m ≡ none) ((eqb_ℤ_iff t u).0 b) h))
    | inr b ↦ rw b (get-insert t u task m ∙ ap (λ c. if c then some task else get u m) b)
  ]

  -- The entry of a task that was just dispatched.
  abbrev fresh : TaskDispatchData → RunningTask
  fresh d = record { workspace_name = d.workspace_name; cancel_sent = false; log_path = [] }

  with_log-IsBegun :
      (log : Text ⊎ Text) (d : TaskDispatchData) (a b : Agent V)
      → a.update_in_progress ≡ false
      → get d.task_id a.running_tasks ≡ none
      → b.persisted_state ≡ a.persisted_state
      → b.disk ≡ a.disk
      → b.client ≡ announced d a
      → b.running_tasks ≡ insert d.task_id (fresh d) a.running_tasks
      → IsBegun log d a (with_log codec log d b)
  unfolding get_task upsert_running save_persisted_state
  with_log-IsBegun (inl e) d a b update idle store disk client running_b = (
    λ u.
        ap (λ m. get u (remove d.task_id m)) running_b
        ∙ undone d.task_id u (fresh d) a.running_tasks idle,
    store,
    disk,
    inr (
        inr (
          e,
          refl,
          ap (λ c. (send_task_failed d.task_id (codes "Failed to initialize task logs: " ++ e) c).1)
              client,
        )),
  )
  with_log-IsBegun (inr path) d a b update idle store disk client running_b = (
    path,
    refl,
    update,
    idle,
    ap (λ o. get d.task_id (with_log_path o d.task_id path b.running_tasks))
          (ap (get d.task_id) running_b ∙ get_inserted d.task_id (fresh d) a.running_tasks)
        ∙ get_inserted d.task_id _ b.running_tasks,
    get_inserted d.task_id _ b.persisted_state.tasks,
    client,
    ap (λ x. (save codec (with_log codec (inr path) d b).1.persisted_state x).1) disk,
  )

  pub begin_dispatch-IsBegun :
      (log : Text ⊎ Text) (d : TaskDispatchData) (a : Agent V)
      → IsBegun log d a (begin_dispatch codec log d a)
  unfolding begin_dispatch
  begin_dispatch-IsBegun log d a =
      if-both (IsBegun log d a) a.update_in_progress (λ h. (λ u. refl, refl, refl, inl (h, refl)))
        (λ h.
          if-both (IsBegun log d a) (contains_key d.task_id a.running_tasks)
            (λ k. (λ u. refl, refl, refl, inr (inl (h, k, refl))))
            (λ k.
              with_log-IsBegun log d a _ h (none_of (get d.task_id a.running_tasks) k) refl refl
                refl refl))
