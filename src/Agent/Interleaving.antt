-- ===== src/Agent/Interleaving.antt =====
-- The handlers of agent/src/main.rs that run beside each other: `handle_task_dispatch` and
-- `handle_agent_update`, cut where they take the locks of `running_tasks` and `update_in_progress`.
pub mod Steps
pub mod Guard
use tasknexus_client_agent.Prelude.{
  ℕ, ℤ, int_eq, Bool, true, false, Option, none, some, List, [], ◌∷◌, ◌++◌, ◌≡◌, if◌then◌else◌,
  length, ltb, insert, contains_key, ◌⊎◌, inl, inr, ◌&&◌, not,
}
use tasknexus_client_agent.Text.{Text, codes}
use tasknexus_client_agent.Client.Message.{TaskDispatchData}
use tasknexus_client_agent.Client.Connection.{send_task_started, clear_task_log_ack}
use tasknexus_client_agent.Store.{Json}
use tasknexus_client_agent.Store.Disk.{Codec}
use tasknexus_client_agent.Agent.{Agent, with_log, finish_dispatch}
use tasknexus_client_agent.Agent.Control.{
  Answers, path_in, report_failed, report_started, set_update, still_running, update_logged,
  end_update,
}

-- A dispatch has come; has seen that no update is in progress; has seen that its task does not run;
-- has entered the running tasks; has made its log and runs; has left.
pub data DispatchAt : Type 0 where
  received : DispatchAt
  allowed : DispatchAt
  fresh : DispatchAt
  entered : DispatchAt
  started : Text → DispatchAt
  left : DispatchAt

-- An update has come; has set the flag; has seen a running task; has seen none; has made its log and
-- replaces the binary; has left the process; has given up, the flag reset.
pub data UpdateAt : Type 0 where
  requested : UpdateAt
  flagged : UpdateAt
  refused : UpdateAt
  granted : UpdateAt
  replacing : Text → UpdateAt
  exited : UpdateAt
  stopped : UpdateAt

module _ {V : Type 0} (codec : Codec V) (decimal : ℕ → Text) where
  abbrev pub enter : TaskDispatchData → Agent V → Agent V
  enter d a = record a {
    running_tasks =
        insert d.task_id
          (record { workspace_name = d.workspace_name; cancel_sent = false; log_path = [] })
          a.running_tasks;
  }

  abbrev pub announce : TaskDispatchData → Agent V → Agent V
  announce d a = record a {
    client = clear_task_log_ack d.task_id (send_task_started d.task_id a.client).1;
  }

  abbrev pub logged : Text ⊎ Text → Bool × Agent V → DispatchAt × Agent V
  logged log (begun, a) = (if begun then started (path_in log) else left, a)

  -- What `handle_task_dispatch` does from one lock to the next.
  unfoldable pub dispatch_turn :
      Answers V → TaskDispatchData → DispatchAt → Agent V → DispatchAt × Agent V
  unfolding finish_dispatch
  dispatch_turn answers d received a =
      if a.update_in_progress
      then (left, report_failed d.task_id (codes "Agent is updating; task rejected") a)
      else (allowed, a)
  dispatch_turn answers d allowed a =
      if contains_key d.task_id a.running_tasks then (left, a) else (fresh, a)
  dispatch_turn answers d fresh a = (entered, enter d a)
  dispatch_turn answers d entered a =
      logged answers.log (with_log codec answers.log d (announce d a))
  dispatch_turn answers d (started path) a =
      (left, finish_dispatch codec decimal d answers.run answers.flushed path a)
  dispatch_turn answers d left a = (left, a)

  abbrev pub update_log_made : Text ⊎ Text → Bool × Agent V → UpdateAt × Agent V
  update_log_made log (begun, a) = (if begun then replacing (path_in log) else stopped, a)

  abbrev pub ended_at : Option ℕ → UpdateAt
  ended_at none = stopped
  ended_at (some code) = exited

  -- What `handle_agent_update` does from one lock to the next.
  unfoldable pub update_turn : Json V → Answers V → ℤ → UpdateAt → Agent V → UpdateAt × Agent V
  unfolding end_update
  update_turn json answers task_id requested a =
      if a.update_in_progress
      then (stopped, report_failed task_id (codes "Self-update already running") a)
      else (flagged, set_update true a)
  update_turn json answers task_id flagged a =
      if ltb 0 (length a.running_tasks)
      then (refused, report_failed task_id (still_running decimal (codes "update") a) a)
      else (granted, report_started task_id a)
  update_turn json answers task_id refused a = (stopped, set_update false a)
  update_turn json answers task_id granted a =
      update_log_made answers.log (update_logged codec decimal answers.log task_id a)
  update_turn json answers task_id (replacing path) a =
      let r = end_update codec decimal json answers.updated path task_id a in (ended_at r.0, r.1)
  update_turn json answers task_id exited a = (exited, a)
  update_turn json answers task_id stopped a = (stopped, a)

abbrev pub is_exited : UpdateAt → Bool
is_exited requested = false
is_exited flagged = false
is_exited refused = false
is_exited granted = false
is_exited (replacing path) = false
is_exited exited = true
is_exited stopped = false

abbrev pub has_left : List (ℤ × UpdateAt) → Bool
has_left [] = false
has_left ((task_id, at) ∷ updates) = if is_exited at then true else has_left updates

-- The agent with the handlers that run.
pub record Handlers (V : Type 0) : Type 0 where
  pub agent : Agent V
  pub dispatches : List (TaskDispatchData × DispatchAt)
  pub updates : List (ℤ × UpdateAt)

module _ {V : Type 0} (codec : Codec V) (decimal : ℕ → Text) (json : Json V) where
  -- `tokio::spawn` lets any handler go on at any time, until the process is left.
  pub data Turns : Handlers V → Handlers V → Type 0 where
    comes_dispatch :
        (d : TaskDispatchData) (s : Handlers V)
        → has_left s.updates ≡ false
        → Turns s (record s { dispatches = (d, received) ∷ s.dispatches })
    comes_update :
        (task_id : ℤ) (s : Handlers V)
        → has_left s.updates ≡ false
        → Turns s (record s { updates = (task_id, requested) ∷ s.updates })
    goes_dispatch :
        (answers : Answers V) (before after : List (TaskDispatchData × DispatchAt))
        (d : TaskDispatchData) (at : DispatchAt) (updates : List (ℤ × UpdateAt)) (a : Agent V)
        → has_left updates ≡ false
        → Turns
            (record { agent = a; dispatches = before ++ (d, at) ∷ after; updates = updates })
            (record {
              agent = (dispatch_turn codec decimal answers d at a).1;
              dispatches = before ++ (d, (dispatch_turn codec decimal answers d at a).0) ∷ after;
              updates = updates;
            })
    goes_update :
        (answers : Answers V) (before after : List (ℤ × UpdateAt)) (task_id : ℤ) (at : UpdateAt)
        (dispatches : List (TaskDispatchData × DispatchAt)) (a : Agent V)
        → has_left (before ++ (task_id, at) ∷ after) ≡ false
        → Turns
            (record {
              agent = a;
              dispatches = dispatches;
              updates = before ++ (task_id, at) ∷ after;
            })
            (record {
              agent = (update_turn codec decimal json answers task_id at a).1;
              dispatches = dispatches;
              updates =
                  before
                  ++ (task_id, (update_turn codec decimal json answers task_id at a).0) ∷ after;
            })
