-- ===== src/Executor/Runner/Task/Complete.antt =====
-- What every run of `run_task` of agent/src/executor.rs leaves, however the system answers.
use tasknexus_client_agent.Prelude.{
  int_eq, ◌≡◌, ap, ◌∙◌, true, ◌&&◌, List, [], ◌∷◌, ◌++◌, if◌then◌else◌, arith, text_eq,
}
use tasknexus_client_agent.Text.{Text}
use tasknexus_client_agent.Executor.Runner.{
  Call, System, TaskRunner, Flow, returns, goes, after, zero_exit,
}
use tasknexus_client_agent.Executor.Runner.Calls.{removed_dirs, halts}
use tasknexus_client_agent.Executor.Runner.Steps.{
  Prepared, Completed, IsComplete, prepared-IsComplete, extend-Completed,
}
use tasknexus_client_agent.Executor.Runner.Task.{TaskArgs, workspace, run_in, run_task}
use tasknexus_client_agent.Executor.Runner.Task.Preparing.{workspace-Prepares}
use tasknexus_client_agent.Executor.Runner.Task.Running.{kept, run_in-Completes}

module _ {V : Type 0} (sys : System V) (runner : TaskRunner) where
  -- The workspace's directory, if it could be made
  abbrev pub dirs_in : Flow V Text → List Text
  dirs_in (returns r) = []
  dirs_in (goes dir) = dir ∷ []

  abbrev pub wanted : TaskArgs → Flow V Text → List Text
  wanted t made = if t.cleanup_workspace_on_success then dirs_in made else []

  whole-Completed :
      (t : TaskArgs) (calls : List Call) (made : Flow V Text × List Call)
      → Prepared sys true calls made
      → Completed sys (wanted t made.0) calls (after made (λ dir. run_in sys runner t dir))
  whole-Completed t calls (returns r, done) p =
      (p.0, p.1, prepared-IsComplete sys (wanted t (returns r)) r p.0 p.2 p.3)
  whole-Completed t calls (goes dir, done) p =
      extend-Completed sys (kept sys runner t dir) calls done p.0 (run_in sys runner t dir done) p.1
        p.2 (run_in-Completes sys runner t dir done)

  run_task-Completed :
      (t : TaskArgs) (calls : List Call)
      → let out = run_task sys runner t calls in
        (added : List Call) × (out.1 ≡ calls ++ added)
        × IsComplete sys (wanted t (workspace sys runner t calls).0) out.0 added
  unfolding run_task
  run_task-Completed t calls =
      whole-Completed t calls (workspace sys runner t calls) (workspace-Prepares sys runner t calls)

  -- However the system answers: the directory of the workspace, if it could be made, is removed once
  -- exactly when the task asks for it and ended with exit code 0, and no other directory is removed.
  pub run_task-removed_dirs :
      (t : TaskArgs)
      → let out = run_task sys runner t [] in
        removed_dirs out.1 ≡ (
          if t.cleanup_workspace_on_success && zero_exit out.0
          then dirs_in (workspace sys runner t []).0
          else [])
  run_task-removed_dirs t =
      let whole = run_task-Completed t [] in
      ap removed_dirs whole.1 ∙ whole.2.cleaned ∙ ground arith

  -- However the system answers: once a command has failed, a file could not be written or the
  -- workspace could not be made, no command is run any more.
  pub run_task-halts : (t : TaskArgs) → halts sys (run_task sys runner t []).1 ≡ true
  run_task-halts t = let whole = run_task-Completed t [] in ap (halts sys) whole.1 ∙ whole.2.halted
