-- ===== src/Agent/Clearing.antt =====
-- The server's acknowledgement of a task's state in agent/src/main.rs.
use tasknexus_client_agent.Prelude.{
  ℤ, int_eq, text_eq, ◌==◌, true, false, Option, none, some, [], ◌∷◌, ◌≡◌, refl, sym, ap, ◌∙◌,
  if◌then◌else◌, if-both, is_some, Map, get, get-remove, contains_key, ◌⊎◌, inl, inr, Bool-cases,
  ◌++◌, append-nil, List, is_empty,
}
use tasknexus_client_agent.Text.{Text, codes}
use tasknexus_client_agent.Client.Message.{TaskStateAckData}
use tasknexus_client_agent.Store.{PersistedTaskState, remove_task, get_task}
use tasknexus_client_agent.Store.Disk.{Codec, save}
use tasknexus_client_agent.Agent.{
  Agent, RunningTask, handle_task_state_ack, handle_task_cancel, clear_persisted_task_state,
  save_persisted_state, is_final, cancelled_entry, cleanup_removed, cleanup_persisted_task_files,
}
use tasknexus_client_agent.Agent.Outcome.{get_inserted}
use tasknexus_client_agent.Agent.Beginning.{none_of}

module _ {V : Type 0} (codec : Codec V) where
  -- The log file that an entry names.
  abbrev pub log_of : Option (PersistedTaskState V) → List Text
  log_of none = []
  log_of (some task) = if is_empty task.local_log_path then [] else task.local_log_path ∷ []

  -- The task's entry goes, and no other, and that is saved; the log file that the entry names is deleted
  -- exactly if the task is not running.
  abbrev pub IsCleared : ℤ → Agent V → Agent V → Type 0
  IsCleared t a b =
      ((u : ℤ)
        → get_task u b.persisted_state ≡ (if t == u then none else get_task u a.persisted_state))
      × (b.removed_files ≡ (
          if is_some (get t a.running_tasks)
          then a.removed_files
          else a.removed_files ++ log_of (get_task t a.persisted_state)))
      × (b.disk ≡ (save codec b.persisted_state a.disk).1)

  cleanup-running :
      (o : Option (PersistedTaskState V)) (a : Agent V)
      → ((cleanup_removed codec o a).running_tasks ≡ a.running_tasks)
        × ((cleanup_removed codec o a).persisted_state ≡ a.persisted_state)
        × ((cleanup_removed codec o a).removed_files ≡ a.removed_files ++ log_of o)
        × ((cleanup_removed codec o a).disk ≡ a.disk)
  cleanup-running none a = (refl, refl, sym (append-nil a.removed_files), refl)
  cleanup-running (some task) a = cleanup-path task.local_log_path a
    where
      cleanup-path :
          (path : Text) (a : Agent V)
          → let b = cleanup_persisted_task_files path a in
            (b.running_tasks ≡ a.running_tasks)
            × (b.persisted_state ≡ a.persisted_state)
            × (b.removed_files ≡ a.removed_files ++ (if is_empty path then [] else path ∷ []))
            × (b.disk ≡ a.disk)
      cleanup-path [] a = (refl, refl, sym (append-nil a.removed_files), refl)
      cleanup-path (c ∷ path) a = (refl, refl, refl, refl)

  pub clear-IsCleared :
      (t : ℤ) (a : Agent V)
      → IsCleared t a (clear_persisted_task_state codec t a)
        × ((clear_persisted_task_state codec t a).running_tasks ≡ a.running_tasks)
  unfolding clear_persisted_task_state save_persisted_state remove_task get_task
  clear-IsCleared t a =
      let saved =
        save_persisted_state codec
          (record a { persisted_state = (remove_task t a.persisted_state).1 }) in
      if-both (λ x. IsCleared t a x × (x.running_tasks ≡ a.running_tasks))
        (contains_key t a.running_tasks)
        (λ h. ((λ u. get-remove t u a.persisted_state.tasks, rw h refl, refl), refl))
        (λ h.
          let kept = cleanup-running (get_task t a.persisted_state) saved in
          (
            (
              λ u. ap (get_task u) kept.1 ∙ get-remove t u a.persisted_state.tasks,
              rw h kept.2,
              kept.3 ∙ ap (λ s. (save codec s a.disk).1) (sym kept.1),
            ),
            kept.0,
          ))

  -- The entry is cleared, after a cancel that touches neither the kept states nor the files.
  IsCleared-after :
      (t : ℤ) (a c : Agent V)
      → c.persisted_state ≡ a.persisted_state
      → c.removed_files ≡ a.removed_files
      → is_some (get t c.running_tasks) ≡ is_some (get t a.running_tasks)
      → c.disk ≡ a.disk
      → IsCleared t a (clear_persisted_task_state codec t c)
  IsCleared-after t a c store files still disk =
      let cleared = clear-IsCleared t c in
      (
        λ u. cleared.0.0 u ∙ ap (λ s. if t == u then none else get_task u s) store,
        cleared.0.1 ∙ rw (still, files, store) refl,
        cleared.0.2
            ∙ ap (λ x. (save codec (clear_persisted_task_state codec t c).persisted_state x).1)
                disk,
      )

  -- The cancel signal of a task that is running.
  abbrev after_cancel : ℤ → Agent V → Agent V
  after_cancel t a = if contains_key t a.running_tasks then handle_task_cancel t a else a

  still_running :
      (o : Option RunningTask) (t : ℤ) (m : Map ℤ RunningTask)
      → get t m ≡ o
      → is_some (get t (cancelled_entry o t m)) ≡ is_some o
  still_running none t m e = ap is_some e
  still_running (some task) t m e =
      ap is_some (get_inserted t (record task { cancel_sent = true }) m)

  -- A cancel signal, if the task is running.
  abbrev IsSignalled : ℤ → Agent V → Agent V → Type 0
  IsSignalled t a c =
      (c.persisted_state ≡ a.persisted_state)
      × (c.removed_files ≡ a.removed_files)
      × (is_some (get t c.running_tasks) ≡ is_some (get t a.running_tasks))
      × (c.disk ≡ a.disk)
      × (c.running_tasks ≡ cancelled_entry (get t a.running_tasks) t a.running_tasks)

  after_cancel-IsSignalled : (t : ℤ) (a : Agent V) → IsSignalled t a (after_cancel t a)
  unfolding handle_task_cancel
  after_cancel-IsSignalled t a =
      if-both (IsSignalled t a) (contains_key t a.running_tasks)
        (λ h.
          (refl, refl, still_running (get t a.running_tasks) t a.running_tasks refl, refl, refl))
        (λ h. (
          refl,
          refl,
          refl,
          refl,
          sym (
              ap (λ o. cancelled_entry o t a.running_tasks)
                (none_of codec (get t a.running_tasks) h)),
        ))

  -- The effect by the code's own test of the status.
  pub handle_task_state_ack-IsCleared :
      (ack : TaskStateAckData) (a : Agent V)
      → let b = handle_task_state_ack codec ack a in
        (is_final ack.status ≡ false → b ≡ a)
        × (is_final ack.status ≡ true
            → IsCleared ack.task_id a b
              × (b.running_tasks ≡ (
                  if ack.accepted
                  then a.running_tasks
                  else cancelled_entry
                      (get ack.task_id a.running_tasks)
                      ack.task_id
                      a.running_tasks)))
  unfolding handle_task_state_ack
  handle_task_state_ack-IsCleared ack a = elim (Bool-cases ack.accepted) [
    | inl h ↦ rw h (
      λ k. ap (λ c. if c then clear_persisted_task_state codec ack.task_id a else a) k,
      λ k. rw k (clear-IsCleared ack.task_id a),
    )
    | inr h ↦ rw h (
      λ k.
          ap
            (λ c.
              if c
              then clear_persisted_task_state codec ack.task_id (after_cancel ack.task_id a)
              else a)
            k,
      λ k. rw k rejected,
    )
  ]
    where
      rejected :
          IsCleared ack.task_id a
            (clear_persisted_task_state codec ack.task_id (after_cancel ack.task_id a))
          × ((clear_persisted_task_state codec ack.task_id
                (after_cancel ack.task_id a)).running_tasks
              ≡ cancelled_entry (get ack.task_id a.running_tasks) ack.task_id a.running_tasks)
      rejected =
          let s = after_cancel-IsSignalled ack.task_id a in
          (
            IsCleared-after ack.task_id a (after_cancel ack.task_id a) s.0 s.1 s.2 s.3,
            (clear-IsCleared ack.task_id (after_cancel ack.task_id a)).1 ∙ s.4,
          )

  -- The status of a task that has ended, as the server sends it.
  abbrev pub Ends : Text → Type 0
  Ends status =
      (status ≡ codes "COMPLETED")
      ⊎ ((status ≡ codes "FAILED") ⊎ ((status ≡ codes "CANCELLED") ⊎ (status ≡ codes "TIMEOUT")))
