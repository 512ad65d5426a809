-- ===== src/Agent/Reach.antt =====
-- The agent from its start on: dispatches, ends of tasks, cancels and acknowledgements in any order.
use tasknexus_client_agent.Prelude.{
  ℕ, ℤ, int_eq, eqb_ℤ, eqb_ℤ_iff, ◌==◌, ==_refl, Bool, true, false, false≢true, Option, none, some,
  [], ◌≡◌, refl, sym, ap, subst, ◌∙◌, ◌⊎◌, inl, inr, if◌then◌else◌, if-both, is_some, Map, get,
  insert, remove, get-insert, get-remove, Bool-cases, pos, contains_key,
}
use tasknexus_client_agent.Text.{Text}
use tasknexus_client_agent.Client.Message.{TaskDispatchData, TaskStateAckData}
use tasknexus_client_agent.Store.{
  PersistedStateStore, PersistedTaskState, is_running, get_task, upsert_running, mark_completed,
  mark_failed, remove_task,
}
use tasknexus_client_agent.Store.Disk.{Codec}
use tasknexus_client_agent.Executor.Process.{ExecutionResult}
use tasknexus_client_agent.Agent.{
  Agent, RunningTask, begin_dispatch, with_log, with_log_path, finish_dispatch, store_outcome,
  handle_task_cancel, handle_task_state_ack, cancelled_entry, save_persisted_state, is_final,
}
use tasknexus_client_agent.Agent.Outcome.{
  get_inserted, get_removed, finish_dispatch-reports, finish_running, finish_store,
}
use tasknexus_client_agent.Agent.Clearing.{handle_task_state_ack-IsCleared}
use tasknexus_client_agent.Agent.Beginning.{IsBegun, begin_dispatch-IsBegun}

pub inserted_other :
    {A : Type 0} (t u : ℤ) (x : A) (m : Map ℤ A) → (t == u) ≡ false → get u (insert t x m) ≡ get u m
inserted_other t u x m e = get-insert t u x m ∙ ap (λ b. if b then some x else get u m) e

removed_other :
    {A : Type 0} (t u : ℤ) (m : Map ℤ A) → (t == u) ≡ false → get u (remove t m) ≡ get u m
removed_other t u m e = get-remove t u m ∙ ap (λ b. if b then none else get u m) e

cancelled_other :
    (t u : ℤ) (o : Option RunningTask) (m : Map ℤ RunningTask)
    → (t == u) ≡ false
    → get u (cancelled_entry o t m) ≡ get u m
cancelled_other t u none m e = refl
cancelled_other t u (some task) m e = inserted_other t u (record task { cancel_sent = true }) m e

cancelled_own :
    (t : ℤ) (o : Option RunningTask) (m : Map ℤ RunningTask)
    → is_some (get t m) ≡ true
    → is_some (get t (cancelled_entry o t m)) ≡ true
cancelled_own t none m h = h
cancelled_own t (some task) m h = ap is_some (get_inserted t (record task { cancel_sent = true }) m)

module _ {V : Type 0} where
  -- Whether a task is kept as running.
  abbrev pub runs : Option (PersistedTaskState V) → Bool
  runs none = false
  runs (some task) = is_running task.local_state

  -- Only a task that is running is kept as running.
  abbrev pub IsTracked : Agent V → Type 0
  IsTracked a =
      (t : ℤ) → runs (get_task t a.persisted_state) ≡ true → is_some (get t a.running_tasks) ≡ true

  -- A step at one task.
  pub IsTracked-step :
      (t : ℤ) (a b : Agent V)
      → IsTracked a
      → ((u : ℤ) → (t == u) ≡ false → get_task u b.persisted_state ≡ get_task u a.persisted_state)
      → ((u : ℤ) → (t == u) ≡ false → get u b.running_tasks ≡ get u a.running_tasks)
      → (runs (get_task t b.persisted_state) ≡ true → is_some (get t b.running_tasks) ≡ true)
      → IsTracked b
  IsTracked-step t a b h store running own u r = elim (Bool-cases (t == u)) [
    | inl e ↦
        subst (λ j. is_some (get j b.running_tasks) ≡ true) ((eqb_ℤ_iff t u).0 e)
          (own
            (subst (λ j. runs (get_task j b.persisted_state) ≡ true) (sym ((eqb_ℤ_iff t u).0 e)) r))
    | inr e ↦ ap is_some (running u e) ∙ h u (ap runs (sym (store u e)) ∙ r)
  ]

  pub handle_task_cancel-IsTracked :
      (t : ℤ) (a : Agent V) → IsTracked a → IsTracked (handle_task_cancel t a)
  unfolding handle_task_cancel
  handle_task_cancel-IsTracked t a h =
      IsTracked-step t a (handle_task_cancel t a) h (λ u e. refl)
        (λ u e. cancelled_other t u (get t a.running_tasks) a.running_tasks e)
        (λ r. cancelled_own t (get t a.running_tasks) a.running_tasks (h t r))

module _ {V : Type 0} (codec : Codec V) where
  path_other :
      (t u : ℤ) (path : Text) (o : Option RunningTask) (m : Map ℤ RunningTask)
      → (t == u) ≡ false
      → get u (with_log_path o t path m) ≡ get u m
  path_other t u path none m e = refl
  path_other t u path (some task) m e = inserted_other t u (record task { log_path = path }) m e

  -- A dispatch touches no other task.
  abbrev IsOwn : TaskDispatchData → ℤ → Agent V → Bool × Agent V → Type 0
  IsOwn d u a r =
      (get_task u r.1.persisted_state ≡ get_task u a.persisted_state)
      × (get u r.1.running_tasks ≡ get u a.running_tasks)

  with_log-IsOwn :
      (log : Text ⊎ Text) (d : TaskDispatchData) (u : ℤ) (a b : Agent V)
      → (d.task_id == u) ≡ false
      → b.persisted_state ≡ a.persisted_state
      → get u b.running_tasks ≡ get u a.running_tasks
      → IsOwn d u a (with_log codec log d b)
  unfolding get_task upsert_running save_persisted_state
  with_log-IsOwn (inl error) d u a b e s r =
      (ap (get_task u) s, removed_other d.task_id u b.running_tasks e ∙ r)
  with_log-IsOwn (inr path) d u a b e s r = (
    inserted_other d.task_id u _ b.persisted_state.tasks e ∙ ap (get_task u) s,
    path_other d.task_id u path (get d.task_id b.running_tasks) b.running_tasks e ∙ r,
  )

  begin_dispatch-IsOwn :
      (log : Text ⊎ Text) (d : TaskDispatchData) (u : ℤ) (a : Agent V)
      → (d.task_id == u) ≡ false
      → IsOwn d u a (begin_dispatch codec log d a)
  unfolding begin_dispatch
  begin_dispatch-IsOwn log d u a e =
      if-both (IsOwn d u a) a.update_in_progress (λ _. (refl, refl))
        (λ _.
          if-both (IsOwn d u a) (contains_key d.task_id a.running_tasks) (λ _. (refl, refl))
            (λ _.
              with_log-IsOwn log d u a _ e refl (inserted_other d.task_id u _ a.running_tasks e)))

  begun-own :
      (log : Text ⊎ Text) (d : TaskDispatchData) (a : Agent V) (r : Bool × Agent V)
      → IsTracked a
      → IsBegun codec log d a r
      → runs (get_task d.task_id r.1.persisted_state) ≡ true
      → is_some (get d.task_id r.1.running_tasks) ≡ true
  begun-own log d a (true, b) h (path, is, update, idle, run, store, client, disk) k =
      ap is_some run
  begun-own log d a (false, b) h (run, store, disk, refusal) k =
      ap is_some (run d.task_id)
      ∙ h d.task_id (ap (λ s. runs (get_task d.task_id s)) (sym store) ∙ k)

  pub begin_dispatch-IsTracked :
      (log : Text ⊎ Text) (d : TaskDispatchData) (a : Agent V)
      → IsTracked a
      → IsTracked (begin_dispatch codec log d a).1
  begin_dispatch-IsTracked log d a h =
      IsTracked-step d.task_id a (begin_dispatch codec log d a).1 h
        (λ u e. (begin_dispatch-IsOwn log d u a e).0) (λ u e. (begin_dispatch-IsOwn log d u a e).1)
        (begun-own log d a (begin_dispatch codec log d a) h (begin_dispatch-IsBegun codec log d a))

  own_cleared :
      (t : ℤ) (a b : Agent V)
      → get_task t b.persisted_state ≡ (if t == t then none else get_task t a.persisted_state)
      → get_task t b.persisted_state ≡ none
  own_cleared t a b h = h ∙ ap (λ c. if c then none else get_task t a.persisted_state) (==_refl t)

  handle_task_state_ack-IsTracked :
      (ack : TaskStateAckData) (a : Agent V)
      → IsTracked a
      → IsTracked (handle_task_state_ack codec ack a)
  handle_task_state_ack-IsTracked ack a h =
      let c = handle_task_state_ack-IsCleared codec ack a in
      let t = ack.task_id in
      elim (Bool-cases (is_final ack.status)) [
        | inr k ↦ subst IsTracked (sym (c.0 k)) h
        | inl k ↦
            IsTracked-step t a (handle_task_state_ack codec ack a) h
              (λ u e. (c.1 k).0.0 u ∙ ap (λ b. if b then none else get_task u a.persisted_state) e)
              (λ u e.
                ap (get u) (c.1 k).1
                ∙ if-both (λ m. get u m ≡ get u a.running_tasks) ack.accepted (λ _. refl)
                    (λ _. cancelled_other t u (get t a.running_tasks) a.running_tasks e))
              (λ r.
                elim (false≢true (
                  sym
                    (ap runs (own_cleared t a (handle_task_state_ack codec ack a) ((c.1 k).0.0 t)))
                  ∙ r)) [ ])
      ]

  module _ (decimal : ℕ → Text) where
    -- No task that has ended is kept as running.
    store_outcome-ended :
        (d : TaskDispatchData) (r : ExecutionResult V) (path : Text) (s : PersistedStateStore V)
        → runs (get_task d.task_id (store_outcome codec decimal d r path s)) ≡ false
    unfolding get_task mark_completed mark_failed remove_task
    store_outcome-ended d r path s =
        if-both (λ (x : PersistedStateStore V). runs (get_task d.task_id x) ≡ false) r.cancelled
          (λ _. ap runs (get_removed d.task_id s.tasks))
          (λ _.
            if-both (λ (x : PersistedStateStore V). runs (get_task d.task_id x) ≡ false)
              (eqb_ℤ r.exit_code (pos 0)) (λ _. ap runs (get_inserted d.task_id _ s.tasks))
              (λ _.
                if-both (λ (x : PersistedStateStore V). runs (get_task d.task_id x) ≡ false)
                  r.timed_out (λ _. ap runs (get_inserted d.task_id _ s.tasks))
                  (λ _. ap runs (get_inserted d.task_id _ s.tasks))))

    pub finish_dispatch-IsTracked :
        (d : TaskDispatchData) (r : ExecutionResult V) (flushed : Bool) (path : Text) (a : Agent V)
        → IsTracked a
        → IsTracked (finish_dispatch codec decimal d r flushed path a)
    finish_dispatch-IsTracked d r flushed path a h =
        let b = finish_dispatch codec decimal d r flushed path a in
        IsTracked-step d.task_id a b h (finish_dispatch-reports codec decimal d r flushed path a).1
          (λ u e.
            ap (get u) (finish_running codec decimal d r flushed path a)
            ∙ removed_other d.task_id u a.running_tasks e)
          (λ k.
            elim (false≢true (
              sym (store_outcome-ended d r path a.persisted_state)
              ∙ ap (λ s. runs (get_task d.task_id s))
                  (sym (finish_store codec decimal d r flushed path a))
              ∙ k)) [ ])

    -- What changes the tasks, in any order: the dispatch of a task, its end, a cancel, and an
    -- acknowledgement. An agent starts with no running task and with a store in which none is
    -- kept as running, since `recover_after_restart` has gone over it.
    pub data Reach : Agent V → Type 0 where
      starts :
          (a : Agent V)
          → a.running_tasks ≡ []
          → ((t : ℤ) → runs (get_task t a.persisted_state) ≡ false)
          → Reach a
      begins :
          (log : Text ⊎ Text) (d : TaskDispatchData) (a : Agent V)
          → Reach a
          → Reach (begin_dispatch codec log d a).1
      ends :
          (d : TaskDispatchData) (r : ExecutionResult V) (flushed : Bool) (path : Text)
          (a : Agent V)
          → Reach a
          → Reach (finish_dispatch codec decimal d r flushed path a)
      cancels : (t : ℤ) (a : Agent V) → Reach a → Reach (handle_task_cancel t a)
      acks :
          (ack : TaskStateAckData) (a : Agent V)
          → Reach a
          → Reach (handle_task_state_ack codec ack a)

    -- However tasks are dispatched, end, are cancelled and acknowledged, one after the other: only a
    -- task that is running is kept as running, so the tasks that a restart declares lost are
    -- tasks that it stopped.
    pub Reach-IsTracked : (a : Agent V) → Reach a → IsTracked a
    Reach-IsTracked _ (starts a idle none_runs) =
        λ t h. elim (false≢true (sym (none_runs t) ∙ h)) [ ]
    Reach-IsTracked _ (begins log d a r) = begin_dispatch-IsTracked log d a (Reach-IsTracked a r)
    Reach-IsTracked _ (ends d r flushed path a h) =
        finish_dispatch-IsTracked d r flushed path a (Reach-IsTracked a h)
    Reach-IsTracked _ (cancels t a r) = handle_task_cancel-IsTracked t a (Reach-IsTracked a r)
    Reach-IsTracked _ (acks ack a r) = handle_task_state_ack-IsTracked ack a (Reach-IsTracked a r)
