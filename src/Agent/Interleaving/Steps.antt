-- ===== src/Agent/Interleaving/Steps.antt =====
-- What each turn of the handlers of agent/src/main.rs does to the flag and to the running tasks.
-- each other.
use tasknexus_client_agent.Prelude.{
  ℕ, ℤ, int_eq, Bool, true, false, false≢true, ◌&&◌, List, [], ◌∷◌, ◌++◌, ◌≡◌, refl, ap, ◌∙◌,
  if-both, length, ltb, contains_key, arith, ◌+◌, is_some, is_empty, not, ◌⊎◌, inl, inr, Bool-cases,
}
use tasknexus_client_agent.Text.{Text}
use tasknexus_client_agent.Error.{Result, ok, err}
use tasknexus_client_agent.Client.Message.{TaskDispatchData}
use tasknexus_client_agent.Store.{Json, get_task}
use tasknexus_client_agent.Store.Disk.{Codec}
use tasknexus_client_agent.Agent.{
  Agent, with_log, begin_dispatch, finish_dispatch, save_persisted_state, cleanup_log,
}
use tasknexus_client_agent.Agent.Control.{Answers, update_logged, end_update, begin_update}
use tasknexus_client_agent.Agent.Interleaving.{
  DispatchAt, received, allowed, fresh, entered, started, left, UpdateAt, requested, flagged,
  refused, granted, replacing, exited, stopped, dispatch_turn, update_turn, logged, update_log_made,
  ended_at,
}

-- An update that has set the flag and not reset it.
abbrev pub active : UpdateAt → ℕ
active requested = 0
active flagged = 1
active refused = 1
active granted = 1
active (replacing path) = 1
active exited = 1
active stopped = 0

abbrev pub count_active : List (ℤ × UpdateAt) → ℕ
count_active [] = 0
count_active ((task_id, at) ∷ updates) = active at + count_active updates

pub count_active-append :
    (xs ys : List (ℤ × UpdateAt)) → count_active (xs ++ ys) ≡ count_active xs + count_active ys
count_active-append [] ys = omega arith
count_active-append ((task_id, at) ∷ xs) ys = omega (arith, count_active-append xs ys)

abbrev pub bit : Bool → ℕ
bit true = 1
bit false = 0

-- A dispatch that is not between its first check and its end.
abbrev pub is_outside : DispatchAt → Bool
is_outside received = true
is_outside allowed = false
is_outside fresh = false
is_outside entered = false
is_outside (started path) = false
is_outside left = true

abbrev pub all_outside : List (TaskDispatchData × DispatchAt) → Bool
all_outside [] = true
all_outside ((d, at) ∷ dispatches) = is_outside at && all_outside dispatches

module _ {V : Type 0} (codec : Codec V) (decimal : ℕ → Text) where
  cleanup-flag :
      (flushed : Bool) (task_id : ℤ) (path : Text) (a : Agent V)
      → (cleanup_log codec decimal flushed task_id path a).update_in_progress ≡ a.update_in_progress
  cleanup-flag flushed task_id path a =
      if-both (λ (b : Agent V). b.update_in_progress ≡ a.update_in_progress)
        (flushed && not (is_some (get_task task_id a.persisted_state)))
        (λ _.
          if-both (λ (b : Agent V). b.update_in_progress ≡ a.update_in_progress) (is_empty path)
            (λ _. refl) (λ _. refl))
        (λ _. refl)

  logged-flag :
      (log : Text ⊎ Text) (d : TaskDispatchData) (a : Agent V)
      → (logged codec decimal log (with_log codec log d a)).1.update_in_progress
        ≡ a.update_in_progress
  unfolding save_persisted_state
  logged-flag (inl e) d a = refl
  logged-flag (inr path) d a = refl

  logged-agent : (log : Text ⊎ Text) (r : Bool × Agent V) → (logged codec decimal log r).1 ≡ r.1
  logged-agent log (begun, a) = refl

  -- No turn of a dispatch changes the flag.
  pub dispatch_turn-flag :
      (answers : Answers V) (d : TaskDispatchData) (at : DispatchAt) (a : Agent V)
      → (dispatch_turn codec decimal answers d at a).1.update_in_progress ≡ a.update_in_progress
  unfolding dispatch_turn finish_dispatch save_persisted_state
  dispatch_turn-flag answers d received a =
      if-both (λ (r : DispatchAt × Agent V). r.1.update_in_progress ≡ a.update_in_progress)
        a.update_in_progress (λ _. refl) (λ _. refl)
  dispatch_turn-flag answers d allowed a =
      if-both (λ (r : DispatchAt × Agent V). r.1.update_in_progress ≡ a.update_in_progress)
        (contains_key d.task_id a.running_tasks) (λ _. refl) (λ _. refl)
  dispatch_turn-flag answers d fresh a = refl
  dispatch_turn-flag answers d entered a = logged-flag answers.log d _
  dispatch_turn-flag answers d (started path) a = cleanup-flag answers.flushed d.task_id path _
  dispatch_turn-flag answers d left a = refl

  -- A dispatch that is outside while an update is in progress stays outside.
  pub dispatch_turn-outside :
      (answers : Answers V) (d : TaskDispatchData) (at : DispatchAt) (a : Agent V)
      → a.update_in_progress ≡ true
      → is_outside at ≡ true
      → let r = dispatch_turn codec decimal answers d at a in
        (is_outside r.0 ≡ true) × (r.1.running_tasks ≡ a.running_tasks)
  unfolding dispatch_turn
  dispatch_turn-outside answers d received a u o = rw u (refl, refl)
  dispatch_turn-outside answers d left a u o = (refl, refl)
  dispatch_turn-outside answers d allowed a u o = elim (false≢true o) [ ]
  dispatch_turn-outside answers d fresh a u o = elim (false≢true o) [ ]
  dispatch_turn-outside answers d entered a u o = elim (false≢true o) [ ]
  dispatch_turn-outside answers d (started path) a u o = elim (false≢true o) [ ]

  -- Where no other handler comes in between, the turns of a dispatch do what `begin_dispatch` does.
  pub begin_dispatch-turns :
      (answers : Answers V) (d : TaskDispatchData) (a : Agent V)
      → let turn = λ (r : DispatchAt × Agent V). dispatch_turn codec decimal answers d r.0 r.1 in
        (turn (turn (turn (turn (received, a))))).1 ≡ (begin_dispatch codec answers.log d a).1
  unfolding dispatch_turn begin_dispatch
  begin_dispatch-turns answers d a = elim (Bool-cases a.update_in_progress) [
    | inl updating ↦ rw updating refl
    | inr free ↦ elim (Bool-cases (contains_key d.task_id a.running_tasks)) [
      | inl running ↦ rw (free, running) refl
      | inr idle ↦ rw (free, idle) (logged-agent answers.log (with_log codec answers.log d _))
    ]
  ]

  module _ (json : Json V) where
    update_log_made-agent :
        (log : Text ⊎ Text) (r : Bool × Agent V) → (update_log_made codec decimal log r).1 ≡ r.1
    update_log_made-agent log (begun, a) = refl

    -- Where no other handler comes in between, the turns of an update do what `begin_update` does.
    begin_update-turns :
        (answers : Answers V) (task_id : ℤ) (a : Agent V)
        → let turn =
            λ (r : UpdateAt × Agent V). update_turn codec decimal json answers task_id r.0 r.1 in
          (turn (turn (turn (requested, a)))).1
          ≡ (begin_update codec decimal answers.log task_id a).1
    unfolding update_turn begin_update
    begin_update-turns answers task_id a = elim (Bool-cases a.update_in_progress) [
      | inl updating ↦ rw updating refl
      | inr free ↦ elim (Bool-cases (ltb 0 (length a.running_tasks))) [
        | inl some_run ↦ rw (free, some_run) refl
        | inr idle ↦
            rw (free, idle)
              (update_log_made-agent answers.log
                (update_logged codec decimal answers.log task_id _))
      ]
    ]

    -- What a turn of an update makes of its place and of the flag.
    abbrev IsCounted : ℕ → UpdateAt × Agent V → Type 0
    IsCounted others r = others + active r.0 ≡ bit r.1.update_in_progress

    count_one : (others : ℕ) → others + 0 ≡ 0 → others + 1 ≡ 1
    count_one others h = omega (arith, h)

    -- A reset of the flag by the update that is counted.
    reset : (others : ℕ) (flag : Bool) → others + 1 ≡ bit flag → others + 0 ≡ 0
    reset others true h = omega (arith, h)
    reset others false h = omega (arith, h)

    granted-IsCounted :
        (log : Text ⊎ Text) (task_id : ℤ) (others : ℕ) (a : Agent V)
        → others + 1 ≡ bit a.update_in_progress
        → IsCounted others
            (update_log_made codec decimal log (update_logged codec decimal log task_id a))
    unfolding save_persisted_state
    granted-IsCounted (inl e) task_id others a h = reset others a.update_in_progress h
    granted-IsCounted (inr path) task_id others a h = h

    replaced-IsCounted :
        (updated : Result Text) (path : Text) (task_id : ℤ) (others : ℕ) (a : Agent V)
        → others + 1 ≡ bit a.update_in_progress
        → let r = end_update codec decimal json updated path task_id a in
          IsCounted others (ended_at codec decimal r.0, r.1)
    unfolding end_update save_persisted_state
    replaced-IsCounted (ok version) path task_id others a h = h
    replaced-IsCounted (err e) path task_id others a h = reset others a.update_in_progress h

    pub update_turn-IsCounted :
        (answers : Answers V) (task_id : ℤ) (others : ℕ) (at : UpdateAt) (a : Agent V)
        → others + active at ≡ bit a.update_in_progress
        → IsCounted others (update_turn codec decimal json answers task_id at a)
    unfolding update_turn
    update_turn-IsCounted answers task_id others requested a h =
        elim (Bool-cases a.update_in_progress) [
          | inl updating ↦ rw updating (h ∙ ap bit updating)
          | inr free ↦ rw free (count_one others (h ∙ ap bit free))
        ]
    update_turn-IsCounted answers task_id others flagged a h =
        if-both (IsCounted others) (ltb 0 (length a.running_tasks)) (λ _. h) (λ _. h)
    update_turn-IsCounted answers task_id others refused a h = reset others a.update_in_progress h
    update_turn-IsCounted answers task_id others granted a h =
        granted-IsCounted answers.log task_id others a h
    update_turn-IsCounted answers task_id others (replacing path) a h =
        replaced-IsCounted answers.updated path task_id others a h
    update_turn-IsCounted answers task_id others exited a h = h
    update_turn-IsCounted answers task_id others stopped a h = h

    granted_running :
        (log : Text ⊎ Text) (task_id : ℤ) (a : Agent V)
        → (update_log_made codec decimal log
            (update_logged codec decimal log task_id a)).1.running_tasks
          ≡ a.running_tasks
    unfolding save_persisted_state
    granted_running (inl e) task_id a = refl
    granted_running (inr path) task_id a = refl

    replaced_running :
        (updated : Result Text) (path : Text) (task_id : ℤ) (a : Agent V)
        → (end_update codec decimal json updated path task_id a).1.running_tasks ≡ a.running_tasks
    unfolding end_update save_persisted_state
    replaced_running (ok version) path task_id a = refl
    replaced_running (err e) path task_id a = refl

    -- No turn of an update changes the running tasks.
    pub update_turn-running :
        (answers : Answers V) (task_id : ℤ) (at : UpdateAt) (a : Agent V)
        → (update_turn codec decimal json answers task_id at a).1.running_tasks ≡ a.running_tasks
    unfolding update_turn
    update_turn-running answers task_id requested a =
        if-both (λ (r : UpdateAt × Agent V). r.1.running_tasks ≡ a.running_tasks)
          a.update_in_progress (λ _. refl) (λ _. refl)
    update_turn-running answers task_id flagged a =
        if-both (λ (r : UpdateAt × Agent V). r.1.running_tasks ≡ a.running_tasks)
          (ltb 0 (length a.running_tasks)) (λ _. refl) (λ _. refl)
    update_turn-running answers task_id refused a = refl
    update_turn-running answers task_id granted a = granted_running answers.log task_id a
    update_turn-running answers task_id (replacing path) a =
        replaced_running answers.updated path task_id a
    update_turn-running answers task_id exited a = refl
    update_turn-running answers task_id stopped a = refl
