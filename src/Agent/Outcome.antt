-- ===== src/Agent/Outcome.antt =====
-- A task's outcome: what is kept, and what is told to the server.
use tasknexus_client_agent.Prelude.{
  ℕ, ℤ, pos, int_eq, eqb_ℤ, ==_refl, ◌==◌, Bool, true, false, ◌&&◌, not, Option, none, some, [],
  ◌∷◌, ◌≡◌, refl, sym, ap, false≢true, ◌∙◌, if◌then◌else◌, if-both, is_some, Map, get, insert,
  remove, get-insert, get-remove, inl, inr, Bool-cases,
}
use tasknexus_client_agent.Text.{Text}
use tasknexus_client_agent.Client.Message.{
  ClientMessage, TaskDispatchData, task_completed, task_failed,
}
use tasknexus_client_agent.Client.Connection.{
  AgentClient, send_message, send_task_failed, send_task_completed, clear_task_log_ack,
}
use tasknexus_client_agent.Store.{
  PersistedStateStore, PersistedTaskState, PersistedTaskStateKind, running, completed_pending_sync,
  failed_pending_sync, lost_on_restart, mark_completed, mark_failed, remove_task, get_task,
}
use tasknexus_client_agent.Store.Disk.{Codec}
use tasknexus_client_agent.Executor.Process.{ExecutionResult}
use tasknexus_client_agent.Agent.{
  Agent, save_persisted_state, finish_dispatch, store_outcome, send_outcome, cleanup_log,
  cleanup_persisted_task_files,
}

abbrev pub code_or : Option ℤ → ℤ
code_or none = pos 0
code_or (some c) = c

pub get_inserted : {A : Type 0} (t : ℤ) (v : A) (m : Map ℤ A) → get t (insert t v m) ≡ some v
get_inserted t v m = get-insert t t v m ∙ ap (λ b. if b then some v else get t m) (==_refl t)

pub get_removed : {A : Type 0} (t : ℤ) (m : Map ℤ A) → get t (remove t m) ≡ none
get_removed t m = get-remove t t m ∙ ap (λ b. if b then none else get t m) (==_refl t)

not_both : (b c : Bool) → (b && not c) ≡ true → c ≡ true → ⊥
not_both true true h k = false≢true h
not_both true false h k = false≢true k
not_both false c h k = false≢true h

module _ {V : Type 0} where
  -- The message that tells the server what is kept of a task.
  abbrev pub report : PersistedTaskStateKind → PersistedTaskState V → Option (ClientMessage V)
  report completed_pending_sync t = some (
      task_completed t.task_id (code_or t.final_payload.exit_code) t.final_payload.stdout
        t.final_payload.stderr t.final_payload.result)
  report failed_pending_sync t = some (task_failed t.task_id t.final_payload.error)
  report running t = none
  report lost_on_restart t = none

  abbrev pub report_of : Option (PersistedTaskState V) → Option (ClientMessage V)
  report_of none = none
  report_of (some t) = report t.local_state t

  abbrev pub sent : Option (ClientMessage V) → AgentClient V → AgentClient V
  sent none c = c
  sent (some m) c = (send_message m c).1

module _ {V : Type 0} (codec : Codec V) (decimal : ℕ → Text) where
  outcome :
      (d : TaskDispatchData) (r : ExecutionResult V) (log_path : Text) (s : PersistedStateStore V)
      (c : AgentClient V)
      → sent (report_of (get_task d.task_id (store_outcome codec decimal d r log_path s))) c
        ≡ send_outcome codec decimal d r c
  unfolding send_task_failed send_task_completed get_task mark_completed mark_failed remove_task
  outcome d r log_path s c = elim (Bool-cases r.cancelled) [
    | inl k ↦ rw k (told (get_removed d.task_id s.tasks))
    | inr k ↦ elim (Bool-cases (eqb_ℤ r.exit_code (pos 0))) [
      | inl e ↦ rw (k, e) (told (get_inserted d.task_id _ s.tasks))
      | inr e ↦ elim (Bool-cases r.timed_out) [
        | inl t ↦ rw (k, e, t) (told (get_inserted d.task_id _ s.tasks))
        | inr t ↦ rw (k, e, t) (told (get_inserted d.task_id _ s.tasks))
      ]
    ]
  ]
    where
      told :
          {o o' : Option (PersistedTaskState V)}
          → o ≡ o'
          → sent (report_of o) c ≡ sent (report_of o') c
      told h = ap (λ x. sent (report_of x) c) h

  -- The clean-up touches the files and nothing else, and no file while the task is kept.
  abbrev IsKept : Agent V → Agent V → Type 0
  IsKept a b =
      (b.client ≡ a.client)
      × (b.running_tasks ≡ a.running_tasks)
      × (b.persisted_state ≡ a.persisted_state)
      × (b.disk ≡ a.disk)

  cleanup-IsKept : (path : Text) (a : Agent V) → IsKept a (cleanup_persisted_task_files path a)
  cleanup-IsKept [] a = (refl, refl, refl, refl)
  cleanup-IsKept (c ∷ path) a = (refl, refl, refl, refl)

  cleanup_log-IsKept :
      (b : Bool) (t : ℤ) (path : Text) (a : Agent V)
      → IsKept a (cleanup_log codec decimal b t path a)
        × (is_some (get_task t a.persisted_state) ≡ true
            → (cleanup_log codec decimal b t path a).removed_files ≡ a.removed_files)
  cleanup_log-IsKept b t path a =
      if-both
        (λ x.
          IsKept a x
          × (is_some (get_task t a.persisted_state) ≡ true → x.removed_files ≡ a.removed_files))
        (b && not (is_some (get_task t a.persisted_state)))
        (λ h. (
          cleanup-IsKept path a,
          λ k. elim (not_both b (is_some (get_task t a.persisted_state)) h k) [ ],
        ))
        (λ h. ((refl, refl, refl, refl), λ k. refl))

  store_outcome-others :
      (d : TaskDispatchData) (r : ExecutionResult V) (path : Text) (s : PersistedStateStore V)
      (u : ℤ)
      → (d.task_id == u) ≡ false
      → get_task u (store_outcome codec decimal d r path s) ≡ get_task u s
  unfolding get_task mark_completed mark_failed remove_task
  store_outcome-others d r path s u h =
      let inserted : (v : PersistedTaskState V)
          → get u (insert d.task_id v s.tasks) ≡ get u s.tasks =
        λ v. get-insert d.task_id u v s.tasks ∙ ap (λ b. if b then some v else get u s.tasks) h in
      if-both (λ x. get_task u x ≡ get_task u s) r.cancelled
        (λ _. get-remove d.task_id u s.tasks ∙ ap (λ b. if b then none else get u s.tasks) h)
        (λ _.
          if-both (λ x. get_task u x ≡ get_task u s) (eqb_ℤ r.exit_code (pos 0)) (λ _. inserted _)
            (λ _.
              if-both (λ x. get_task u x ≡ get_task u s) r.timed_out (λ _. inserted _)
                (λ _. inserted _)))

  -- However a task ends, and whether its log was synced or not: the server is sent exactly the result that
  -- is kept for the next synchronisation, and nothing if nothing is kept; the entries of the
  -- other tasks stay; the task is not running any more; and while its result is kept, no log file
  -- is deleted.
  pub finish_dispatch-reports :
      (d : TaskDispatchData) (r : ExecutionResult V) (flush_succeeded : Bool) (path : Text)
      (a : Agent V)
      → let b = finish_dispatch codec decimal d r flush_succeeded path a in
        (b.client
          ≡ clear_task_log_ack d.task_id
              (sent (report_of (get_task d.task_id b.persisted_state)) a.client))
        × ((u : ℤ)
            → (d.task_id == u) ≡ false
            → get_task u b.persisted_state ≡ get_task u a.persisted_state)
        × (get d.task_id b.running_tasks ≡ none)
        × (is_some (get_task d.task_id b.persisted_state) ≡ true
            → b.removed_files ≡ a.removed_files)
  unfolding finish_dispatch save_persisted_state
  finish_dispatch-reports d r flush_succeeded path a =
      let stored =
        save_persisted_state codec
          (record a { persisted_state = store_outcome codec decimal d r path a.persisted_state }) in
      let told = record stored { client = send_outcome codec decimal d r stored.client } in
      let kept = cleanup_log-IsKept flush_succeeded d.task_id path told in
      let same = kept.0.2 in
      (
        ap (clear_task_log_ack d.task_id) (
            kept.0.0
            ∙ sym (outcome d r path a.persisted_state a.client)
            ∙ ap (λ s. sent (report_of (get_task d.task_id s)) a.client) (sym same)),
        λ u h. ap (get_task u) same ∙ store_outcome-others d r path a.persisted_state u h,
        get_removed d.task_id _,
        λ h. kept.1 (ap (λ s. is_some (get_task d.task_id s)) (sym same) ∙ h),
      )

  -- The other running tasks go on.
  pub finish_running :
      (d : TaskDispatchData) (r : ExecutionResult V) (flush_succeeded : Bool) (path : Text)
      (a : Agent V)
      → (finish_dispatch codec decimal d r flush_succeeded path a).running_tasks
        ≡ remove d.task_id a.running_tasks
  unfolding finish_dispatch save_persisted_state
  finish_running d r flush_succeeded path a =
      ap (remove d.task_id) (cleanup_log-IsKept flush_succeeded d.task_id path _).0.1

  pub finish_store :
      (d : TaskDispatchData) (r : ExecutionResult V) (flush_succeeded : Bool) (path : Text)
      (a : Agent V)
      → (finish_dispatch codec decimal d r flush_succeeded path a).persisted_state
        ≡ store_outcome codec decimal d r path a.persisted_state
  unfolding finish_dispatch save_persisted_state
  finish_store d r flush_succeeded path a =
      (cleanup_log-IsKept flush_succeeded d.task_id path _).0.2
