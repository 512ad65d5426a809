-- ===== src/Tests/Runs.antt =====
-- Runs of tasks at concrete inputs.
use tasknexus_client_agent.Prelude.{
  ℕ, pos, ◌≡◌, refl, Bool, true, false, none, some, List, [], ◌∷◌, text_eq, ◌==◌, get, map, ◌↔◌,
  Map, ◌++◌,
}
use tasknexus_client_agent.Text.{Text, codes, trim, strip_prefix, after_last, contains}
use tasknexus_client_agent.Executor.Process.{
  variable_in, Behaviour, Finished, Spawn, result_of, spawn_of,
}
use tasknexus_client_agent.Executor.Process.Ending.{Succeeds, result_of-Succeeds}
use tasknexus_client_agent.Executor.Paths.{join, split, is_skipped}
use tasknexus_client_agent.Executor.Paths.Join.{IsDir}
use tasknexus_client_agent.Executor.Command.{inject_token_into_url}
use tasknexus_client_agent.Executor.Script.{
  eq_ignore_ascii_case, repo_name_of, trim_end_matches, trim_matches, strip_suffix,
}
use tasknexus_client_agent.Executor.Runner.{System, TaskRunner, Call, wrote, ensure_repo_ready}
use tasknexus_client_agent.Executor.Runner.Calls.{removed_dirs, halts}
use tasknexus_client_agent.Executor.Runner.Clone.{Runs, ensure_repo_ready-place}
use tasknexus_client_agent.Executor.Runner.Task.{TaskArgs, run_task, task_request}
use tasknexus_client_agent.Executor.Runner.Task.Complete.{run_task-removed_dirs, run_task-halts}
use tasknexus_client_agent.Executor.Runner.Task.Variables.{get-task_env}

abbrev ends_well : Finished
ends_well = record { status = some (pos 0); stdout_reads = some []; stderr_reads = some [] }

abbrev ends_badly : Finished
ends_badly = record { status = some (pos 1); stdout_reads = some []; stderr_reads = some [] }

abbrev behaving : Finished → List Call → Spawn → Behaviour
behaving finished calls s = record {
  spawn_error = none;
  signalled = false;
  finished = some finished;
}

abbrev system : Finished → System ℕ
system finished = record {
  create_dir_all = λ calls path. none;
  canonicalize = λ calls path. some path;
  current_dir = none;
  exists = λ calls path. false;
  write = λ calls path content. none;
  remove_file = λ calls path. none;
  behave = behaving finished;
  as_nanos = λ calls. 5;
  from_str = λ text. none;
  decimal = λ n. codes "5";
  integer = λ z. codes "7";
}

abbrev runner : TaskRunner
runner = record { workspaces_path = codes "/ws"; default_timeout = 3600; base_env = [] }

abbrev code_task : TaskArgs
code_task = record {
  task_id = pos 7;
  execution_mode = codes "Code";
  command = [];
  code = some (record { language = codes "Python"; content = codes "pass" });
  workspace_name = codes "a";
  client_repo_url = some (codes "https://h/my-repo.git/");
  client_repo_ref = codes "main";
  client_repo_token = some (codes "t");
  prepare_repo_before_execute = true;
  cleanup_workspace_on_success = true;
  timeout_secs = 60;
  environment = some ((codes "SHELL", codes "/bin/sh") ∷ (codes "A", codes "b") ∷ []);
  has_cancel = true;
}

run_task-removed_dirs_example :
    removed_dirs (run_task (system ends_well) runner code_task []).1 ≡ codes "/ws/a" ∷ []
unfolding run_task eq_ignore_ascii_case trim strip_prefix
run_task-removed_dirs_example = run_task-removed_dirs (system ends_well) runner code_task

run_task-halts_example :
    halts (system ends_badly) (run_task (system ends_badly) runner code_task []).1 ≡ true
run_task-halts_example = run_task-halts (system ends_badly) runner code_task

-- The run of the example writes its temporary file, after it has cloned the repository.
abbrev is_written : Call → Bool
is_written (wrote path text) = path == codes "/ws/a/.tasknexus_inline_7_5.py"
is_written call = false

code_task_writes :
    map is_written (run_task (system ends_well) runner code_task []).1
    ≡ false ∷ false ∷ true ∷ false ∷ false ∷ false ∷ []
unfolding run_task eq_ignore_ascii_case trim strip_prefix
code_task_writes = refl

abbrev inherited : Map Text Text
inherited = (codes "SHELL", codes "/bin/zsh") ∷ (codes "A", codes "c") ∷ []

get-task_env_example :
    variable_in inherited
      (spawn_of 3600 (task_request (system ends_well) runner code_task [] []))
      (codes "A")
    ≡ some (codes "b")
unfolding get
get-task_env_example =
    get-task_env (system ends_well) runner code_task [] [] (codes "A") inherited (refl, (refl, tt))

-- A workspace whose path was made canonical.
a_dir : IsDir (codes "/ws/a")
unfolding split
a_dir = record {
  rest = codes "ws" ∷ codes "a" ∷ [];
  parts = refl;
  nonempty = refl;
  trimmed = refl;
  open_end = refl;
}

my_repo-kept : is_skipped (repo_name_of (codes "https://h/my-repo.git/")) ≡ false
unfolding repo_name_of trim_end_matches trim_matches strip_suffix after_last contains
my_repo-kept = refl

my_repo-below : (repo_name_of (codes "https://h/my-repo.git/") == codes "..") ≡ false
unfolding repo_name_of trim_end_matches trim_matches strip_suffix after_last contains
my_repo-below = refl

ensure_repo_ready-place_example :
    let name = repo_name_of (codes "https://h/my-repo.git/") in
    let address = inject_token_into_url (codes "https://h/my-repo.git/") none in
    let done =
      (ensure_repo_ready
        (system ends_well)
        runner
        (codes "/ws/a")
        name
        (codes "https://h/my-repo.git/")
        (codes "main")
        none
        false
        []).1 in
    (false ≡ false
      → Runs
          (system ends_well)
          runner
          []
          (codes "/ws/a")
          (codes "git clone --progress --depth 1 --branch "
            ++ (codes "main" ++ (codes " " ++ (address ++ (codes " " ++ name)))))
          done)
    × (false ≡ true
        → Runs
            (system ends_well)
            runner
            []
            (join (codes "/ws/a") name)
            (codes "git fetch "
              ++ (address
                  ++ (codes " " ++ (codes "main" ++ codes " && git reset --hard FETCH_HEAD"))))
            done)
ensure_repo_ready-place_example =
    ensure_repo_ready-place (system ends_well) runner (codes "/ws/a")
      (codes "https://h/my-repo.git/") (codes "main") none false [] a_dir my_repo-kept my_repo-below

-- A process that the cancel signal comes before.
abbrev cancelled_process : Behaviour
cancelled_process = record { spawn_error = none; signalled = true; finished = some ends_well }

abbrev a_spawn : Spawn
a_spawn = record {
  program = codes "/bin/bash";
  args = codes "-l" ∷ codes "-c" ∷ codes "true" ∷ [];
  current_dir = none;
  env = [];
  timeout_secs = 60;
  has_cancel = true;
}

result_of-Succeeds_example :
    ((result_of {V = ℕ} (λ text. none) (λ n. codes "60") a_spawn cancelled_process).exit_code
      ≡ pos 0)
    ↔ Succeeds a_spawn cancelled_process
result_of-Succeeds_example =
    result_of-Succeeds (λ text. none) (λ n. codes "60") a_spawn cancelled_process
