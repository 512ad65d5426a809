-- ===== src/Store/Inv.antt =====
-- The tasks that a store holds, through its operations.
use tasknexus_client_agent.Prelude.{
  ℤ, int_eq, eqb_ℤ, eqb_ℤ_iff, ◌==◌, Bool, true, false, Option, none, some, [], ◌∷◌, ◌≡◌, refl,
  subst, arith, if◌then◌else◌, Map, get, insert, remove, get-insert, get-remove, ◌∙◌, ap, if-both,
}
use tasknexus_client_agent.Text.{Text}
use tasknexus_client_agent.Store.{
  PersistedTaskState, PersistedTaskStateKind, PersistedStateStore, PersistedFinalPayload, lost,
  is_running, recover_tasks, recover_after_restart, upsert_running, mark_completed, mark_failed,
  remove_task, get_task, running, completed_pending_sync, failed_pending_sync, lost_on_restart,
  default_payload, completed, failed,
}

-- The operations that change the tasks.
pub data Op (V : Type 0) : Type 0 where
  start_op : (task_id : ℤ) (workspace log : Text) → Op V
  complete_op :
      (task_id : ℤ) (workspace log : Text) (exit_code : ℤ) (stdout stderr : Text)
      (result : Map Text V)
      → Op V
  fail_op : (task_id : ℤ) (workspace log error : Text) → Op V
  remove_op : ℤ → Op V
  restart_op : Op V

abbrev pub on_some {ℓ} : {A : Type ℓ} → (A → A) → Option A → Option A
on_some f none = none
on_some f (some a) = some (f a)

on_some-if :
    {A : Type 0} (f : A → A) (b : Bool) (x : A) (o o' : Option A)
    → o' ≡ on_some f o
    → (if b then some (f x) else o') ≡ on_some f (if b then some x else o)
on_some-if f true x o o' h = refl
on_some-if f false x o o' h = h

none-if : {A : Type 0} (b : Bool) → Path (Option A) (if b then none else none) none
none-if true = refl
none-if false = refl

other_way : (t u : ℤ) → eqb_ℤ t u ≡ false → eqb_ℤ u t ≡ false
other_way t u h = ground arith

lost-lost : (k : PersistedTaskStateKind) → lost (lost k) ≡ lost k
lost-lost running = refl
lost-lost _ = refl

is_running-lost : (k : PersistedTaskStateKind) → is_running (lost k) ≡ false
is_running-lost running = refl
is_running-lost completed_pending_sync = refl
is_running-lost failed_pending_sync = refl
is_running-lost lost_on_restart = refl

module _ {V : Type 0} where
  abbrev pub apply : Op V → PersistedStateStore V → PersistedStateStore V
  apply (start_op t w p) s = upsert_running t w p s
  apply (complete_op t w p code out e r) s = mark_completed t w p code out e r s
  apply (fail_op t w p e) s = mark_failed t w p e s
  apply (remove_op t) s = (remove_task t s).1
  apply restart_op s = (recover_after_restart s).1

  abbrev pub after_restart : PersistedTaskState V → PersistedTaskState V
  after_restart task = record task { local_state = lost task.local_state }

  abbrev pub entry :
      ℤ → PersistedTaskStateKind → Text → PersistedFinalPayload V → Text → PersistedTaskState V
  entry t state workspace payload log = record {
    task_id = t;
    local_state = state;
    workspace_name = workspace;
    final_payload = payload;
    local_log_path = log;
  }

  -- What an operation makes of the entry of a task.
  abbrev pub effect : Op V → ℤ → Option (PersistedTaskState V) → Option (PersistedTaskState V)
  effect (start_op t w p) u o = if t == u then some (entry t running w default_payload p) else o
  effect (complete_op t w p code out e r) u o =
      if t == u then some (entry t completed_pending_sync w (completed code out e r) p) else o
  effect (fail_op t w p e) u o =
      if t == u then some (entry t failed_pending_sync w (failed e) p) else o
  effect (remove_op t) u o = if t == u then none else o
  effect restart_op u o = on_some after_restart o

  get-recover :
      (u : ℤ) (m : Map ℤ (PersistedTaskState V))
      → get u (recover_tasks m).1 ≡ on_some after_restart (get u m)
  unfolding recover_tasks get
  get-recover u [] = refl
  get-recover u ((id, task) ∷ m) =
      on_some-if after_restart (id == u) task (get u m) (get u (recover_tasks m).1)
        (get-recover u m)

  -- Each operation changes the entry of its own task and no other; a restart changes every
  -- running task to a lost one.
  pub get_task-apply :
      (o : Op V) (u : ℤ) (s : PersistedStateStore V)
      → get_task u (apply o s) ≡ effect o u (get_task u s)
  unfolding get_task upsert_running mark_completed mark_failed remove_task recover_after_restart
  get_task-apply (start_op t w p) u s = get-insert t u _ s.tasks
  get_task-apply (complete_op t w p code out e r) u s = get-insert t u _ s.tasks
  get_task-apply (fail_op t w p e) u s = get-insert t u _ s.tasks
  get_task-apply (remove_op t) u s = get-remove t u s.tasks
  get_task-apply restart_op u s = get-recover u s.tasks

  -- Each entry stands under its own task, once.
  abbrev pub AreValid : Map ℤ (PersistedTaskState V) → Type 0
  AreValid [] = Unit
  AreValid ((id, task) ∷ m) = (task.task_id ≡ id) × (get id m ≡ none) × AreValid m

  abbrev pub IsValid : PersistedStateStore V → Type 0
  IsValid s = AreValid s.tasks

  insert-AreValid :
      (t : ℤ) (task : PersistedTaskState V) (m : Map ℤ (PersistedTaskState V))
      → task.task_id ≡ t
      → AreValid m
      → AreValid (insert t task m)
  unfolding insert get
  insert-AreValid t task [] h v = (h, refl, tt)
  insert-AreValid t task ((id, old) ∷ m) h (k, f, v) =
      if-both AreValid (id == t) (λ b. (h, subst (λ j. get j m ≡ none) ((eqb_ℤ_iff id t).0 b) f, v))
        (λ b. (k, get-insert t id task m ∙ rw (other_way id t b) f, insert-AreValid t task m h v))

  remove-AreValid : (t : ℤ) (m : Map ℤ (PersistedTaskState V)) → AreValid m → AreValid (remove t m)
  unfolding remove
  remove-AreValid t [] v = tt
  remove-AreValid t ((id, task) ∷ m) (k, f, v) =
      if-both AreValid (id == t) (λ b. remove-AreValid t m v)
        (λ b. (k, get-remove t id m ∙ rw f (none-if (t == id)), remove-AreValid t m v))

  recover-AreValid : (m : Map ℤ (PersistedTaskState V)) → AreValid m → AreValid (recover_tasks m).1
  unfolding recover_tasks
  recover-AreValid [] v = tt
  recover-AreValid ((id, task) ∷ m) (k, f, v) =
      (k, get-recover id m ∙ ap (on_some after_restart) f, recover-AreValid m v)

  -- Every operation keeps one entry for each task, under its own number.
  pub apply-IsValid : (o : Op V) (s : PersistedStateStore V) → IsValid s → IsValid (apply o s)
  unfolding upsert_running mark_completed mark_failed remove_task recover_after_restart
  apply-IsValid (start_op t w p) s v = insert-AreValid t _ s.tasks refl v
  apply-IsValid (complete_op t w p code out e r) s v = insert-AreValid t _ s.tasks refl v
  apply-IsValid (fail_op t w p e) s v = insert-AreValid t _ s.tasks refl v
  apply-IsValid (remove_op t) s v = remove-AreValid t s.tasks v
  apply-IsValid restart_op s v = recover-AreValid s.tasks v

  recover_twice :
      (m : Map ℤ (PersistedTaskState V))
      → recover_tasks (recover_tasks m).1 ≡ (false, (recover_tasks m).1)
  unfolding recover_tasks
  recover_twice [] = refl
  recover_twice ((id, task) ∷ m) =
      rw (lost-lost task.local_state, is_running-lost task.local_state, recover_twice m) refl

  -- After a restart no task counts as running: a second recovery changes nothing, and says so.
  pub recover_after_restart-twice :
      (s : PersistedStateStore V)
      → recover_after_restart (recover_after_restart s).1 ≡ (false, (recover_after_restart s).1)
  unfolding recover_after_restart
  recover_after_restart-twice s = ap (λ r. (r.0, record s { tasks = r.1 })) (recover_twice s.tasks)
