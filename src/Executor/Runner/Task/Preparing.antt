-- ===== src/Executor/Runner/Task/Preparing.antt =====
-- The steps of `run_task` of agent/src/executor.rs before its command: the directory, the repository
-- and the dependencies.
use tasknexus_client_agent.Prelude.{
  int_eq, refl, Bool, true, not, Option, none, some, [], ◌∷◌, if-both, text_eq,
}
use tasknexus_client_agent.Text.{Text}
use tasknexus_client_agent.Executor.Paths.{join}
use tasknexus_client_agent.Executor.Runner.{created, create_failed, System, TaskRunner}
use tasknexus_client_agent.Executor.Runner.Calls.{halts}
use tasknexus_client_agent.Executor.Runner.Steps.{
  Prepared, Prepares, pure-Prepares, ensure_repo_ready-Prepares, ensure_python_deps-Prepares,
}
use tasknexus_client_agent.Executor.Runner.Task.{
  TaskArgs, make_dir, workspace, ensure_repo, prepare_repo, repo_name, python_deps,
}

module _ {V : Type 0} (sys : System V) (runner : TaskRunner) where
  make_dir-Prepares : (e : Option Text) (dir : Text) → Prepares sys true (make_dir sys runner e dir)
  unfolding halts
  make_dir-Prepares none dir calls =
      (created dir ∷ [], refl, record { preparing = refl; halting = refl; succeeding = λ _. refl })
  make_dir-Prepares (some e) dir calls = (
    create_failed dir ∷ [],
    refl,
    record { preparing = refl; halting = refl; succeeding = λ h. cc },
    refl,
  )

  pub workspace-Prepares : (t : TaskArgs) → Prepares sys true (workspace sys runner t)
  unfolding workspace
  workspace-Prepares t calls =
      let dir = join runner.workspaces_path t.workspace_name in
      make_dir-Prepares (sys.create_dir_all calls dir) dir calls

  ensure_repo-Prepares :
      (name url : Option Text) (t : TaskArgs) (dir : Text) (continue : Bool)
      → Prepares sys (not continue) (ensure_repo sys runner name url t dir continue)
  ensure_repo-Prepares none url t dir continue calls = pure-Prepares sys (not continue) tt calls
  ensure_repo-Prepares (some name) none t dir continue calls =
      pure-Prepares sys (not continue) tt calls
  ensure_repo-Prepares (some name) (some url) t dir continue calls =
      ensure_repo_ready-Prepares sys runner dir name url t.client_repo_ref t.client_repo_token
        continue calls

  pub prepare_repo-Prepares :
      (wanted : Bool) (t : TaskArgs) (dir : Text) (continue : Bool)
      → Prepares sys (not continue) (prepare_repo sys runner wanted t dir continue)
  prepare_repo-Prepares wanted t dir continue calls =
      if-both (Prepared sys (not continue) calls) wanted
        (λ _. ensure_repo-Prepares (repo_name t) t.client_repo_url t dir continue calls)
        (λ _. pure-Prepares sys (not continue) tt calls)

  pub python_deps-Prepares :
      (name : Option Text) (dir : Text) → Prepares sys true (python_deps sys runner name dir)
  python_deps-Prepares none dir calls = pure-Prepares sys true tt calls
  python_deps-Prepares (some name) dir calls =
      ensure_python_deps-Prepares sys runner (join dir name) calls
