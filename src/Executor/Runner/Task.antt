-- ===== src/Executor/Runner/Task.antt =====
-- `run_task` of agent/src/executor.rs, and what agent/src/main.rs runs it with.
pub mod Preparing
pub mod Running
pub mod Complete
pub mod Variables
use tasknexus_client_agent.Prelude.{
  ℕ, ℤ, pos, Bool, true, false, ◌&&◌, not, Option, none, some, List, [], ◌∷◌, ◌++◌, if◌then◌else◌,
  is_empty, Map, insert, text_eq, ◌==◌,
}
use tasknexus_client_agent.Text.{Text, codes, trim}
use tasknexus_client_agent.Client.Message.{InlineCode, TaskDispatchData}
use tasknexus_client_agent.Executor.Process.{ExecutionResult, Request, failed_with}
use tasknexus_client_agent.Executor.Paths.{join, is_relative}
use tasknexus_client_agent.Executor.Script.{
  to_lowercase, eq_ignore_ascii_case, ends_with, strip_suffix, repo_name_of, build_script_command,
  build_inline_code_command,
}
use tasknexus_client_agent.Executor.Runner.{
  Call, created, create_failed, wrote, write_failed, removed_file, remove_failed, System,
  TaskRunner, Step, Flow, returns, goes, result_in, pure, return_early, note, ◌>>=◌, ◌>>◌, execute,
  ensure_repo_ready, ensure_python_deps, cleanup_workspace_dir_if_needed,
}

-- The arguments of `run_task`, less the output's callback.
pub record TaskArgs : Type 0 where
  pub task_id : ℤ
  pub execution_mode : Text
  pub command : Text
  pub code : Option InlineCode
  pub workspace_name : Text
  pub client_repo_url : Option Text
  pub client_repo_ref : Text
  pub client_repo_token : Option Text
  pub prepare_repo_before_execute : Bool
  pub cleanup_workspace_on_success : Bool
  pub timeout_secs : ℕ
  pub environment : Option (Map Text Text)
  pub has_cancel : Bool

-- What `handle_task_dispatch` gives of a message.
unfoldable pub args_of : TaskDispatchData → TaskArgs
args_of data_of = record {
  task_id = data_of.task_id;
  execution_mode = data_of.execution_mode;
  command = data_of.command;
  code = data_of.code;
  workspace_name = data_of.workspace_name;
  client_repo_url = data_of.client_repo_url;
  client_repo_ref = data_of.client_repo_ref;
  client_repo_token = data_of.client_repo_token;
  prepare_repo_before_execute = data_of.prepare_repo_before_execute;
  cleanup_workspace_on_success = data_of.cleanup_workspace_on_success;
  timeout_secs = data_of.timeout;
  environment = if is_empty data_of.environment then none else some data_of.environment;
  has_cancel = true;
}

abbrev pub in_code_mode : TaskArgs → Bool
in_code_mode t = eq_ignore_ascii_case t.execution_mode (codes "code")

abbrev pub name_in : Option Text → Option Text
name_in none = none
name_in (some url) = if is_empty url then none else some (repo_name_of url)

abbrev pub repo_name : TaskArgs → Option Text
repo_name t = name_in t.client_repo_url

-- `extend`
unfoldable pub extend : Map Text Text → Map Text Text → Map Text Text
extend [] m = m
extend ((key, value) ∷ more) m = extend more (insert key value m)

abbrev pub extend_by : Option (Map Text Text) → Map Text Text → Map Text Text
extend_by none m = m
extend_by (some env) m = extend env m

abbrev pub is_python_code : Option InlineCode → Bool
is_python_code none = false
is_python_code (some code) = eq_ignore_ascii_case (trim code.language) (codes "python")

abbrev pub is_python : TaskArgs → Bool
is_python t = if in_code_mode t then is_python_code t.code else ends_with (codes ".py") t.command

abbrev pub script_path : Option Text → Text → Text
script_path none command = command
script_path (some name) command = name ++ (codes "/" ++ command)

-- A removal that fails is only warned of.
abbrev pub removal : Option Text → Text → Call
removal none path = removed_file path
removal (some e) path = remove_failed path

module _ {V : Type 0} (sys : System V) (runner : TaskRunner) where
  abbrev pub absolute_path : Option Text → Text → Text
  absolute_path none dir = dir
  absolute_path (some cwd) dir = join cwd dir

  abbrev pub canonical_path : Option Text → Text → Text
  canonical_path (some path) dir = path
  canonical_path none dir = if is_relative dir then absolute_path sys.current_dir dir else dir

  abbrev pub make_dir : Option Text → Text → Step V Text
  make_dir (some e) dir calls = (
    returns (failed_with (codes "Failed to create workspace directory: " ++ e)),
    calls ++ create_failed dir ∷ [],
  )
  make_dir none dir calls =
      let made = calls ++ created dir ∷ [] in
      (goes (canonical_path (sys.canonicalize made dir) dir), made)

  -- The workspace's directory, made and absolute.
  unfoldable pub workspace : TaskArgs → Step V Text
  unfolding join
  workspace t calls =
      let dir = join runner.workspaces_path t.workspace_name in
      make_dir (sys.create_dir_all calls dir) dir calls

  abbrev pub ensure_repo : Option Text → Option Text → TaskArgs → Text → Bool → Step V (Unit {0})
  ensure_repo (some name) (some url) t workspace_dir continue =
      ensure_repo_ready sys runner workspace_dir name url t.client_repo_ref t.client_repo_token
        continue
  ensure_repo none url t workspace_dir continue = pure tt
  ensure_repo (some name) none t workspace_dir continue = pure tt

  abbrev pub prepare_repo : Bool → TaskArgs → Text → Bool → Step V (Unit {0})
  prepare_repo wanted t workspace_dir continue calls =
      if wanted
      then ensure_repo (repo_name t) t.client_repo_url t workspace_dir continue calls
      else (goes tt, calls)

  unfoldable pub task_env : TaskArgs → Map Text Text
  unfolding extend
  task_env t = extend_by t.environment (
      insert (codes "TASKNEXUS_WORKSPACE") t.workspace_name
        (insert (codes "TASKNEXUS_TASK_ID") (sys.integer t.task_id) runner.base_env))

  abbrev pub python_deps : Option Text → Text → Step V (Unit {0})
  python_deps none workspace_dir = pure tt
  python_deps (some name) workspace_dir = ensure_python_deps sys runner (join workspace_dir name)

  abbrev pub code_file_name : ℤ → ℕ → Text → Text
  code_file_name task_id now language =
      codes ".tasknexus_inline_"
      ++ (sys.integer task_id
          ++ (codes "_"
              ++ (sys.decimal now
                  ++ (codes "."
                      ++ (if language == codes "python" then codes "py" else codes "sh")))))

  abbrev pub write_file : Option Text → Text → Text → Step V Text
  write_file (some e) path content calls = (
    returns (failed_with (codes "Failed to write inline code file: " ++ e)),
    calls ++ write_failed path ∷ [],
  )
  write_file none path content calls = (goes path, calls ++ wrote path content ∷ [])

  unfoldable pub create_temp_code_file : Text → ℤ → Text → Text → Step V Text
  unfolding join
  create_temp_code_file workspace_dir task_id language content calls =
      let path = join workspace_dir (code_file_name task_id (sys.as_nanos calls) language) in
      write_file (sys.write calls path content) path content calls

  -- The command and the temporary file, in code mode
  abbrev pub code_command : Option InlineCode → TaskArgs → Text → Step V (Text × Option Text)
  code_command none t workspace_dir calls =
      (returns (failed_with (codes "Code mode selected but no code payload provided")), calls)
  code_command (some code) t workspace_dir calls =
      let language = to_lowercase (trim code.language) in
      if not (language == codes "shell") && not (language == codes "python")
      then (returns (failed_with (codes "Unsupported code language: " ++ code.language)), calls)
      else if is_empty (trim code.content)
      then (returns (failed_with (codes "Code content is empty")), calls)
      else (create_temp_code_file workspace_dir t.task_id language code.content >>= λ path.
            pure (build_inline_code_command language path, some path))
          calls

  abbrev pub actual_command : TaskArgs → Text → Step V (Text × Option Text)
  actual_command t workspace_dir calls =
      if in_code_mode t
      then code_command t.code t workspace_dir calls
      else (goes (build_script_command (script_path (repo_name t) t.command), none), calls)

  abbrev pub remove_temp : Option Text → Step V (Unit {0})
  remove_temp none calls = (goes tt, calls)
  remove_temp (some path) calls = (goes tt, calls ++ removal (sys.remove_file calls path) path ∷ [])

  abbrev pub task_request : TaskArgs → Text → Text → Request
  task_request t workspace_dir command = record {
    command = command;
    working_dir = some workspace_dir;
    environment = some (task_env t);
    timeout_secs = some t.timeout_secs;
    has_cancel = t.has_cancel;
  }

  -- `execute` of the command, and what becomes of the temporary file
  unfoldable pub run_command : TaskArgs → Text → Text × Option Text → Step V (ExecutionResult V)
  unfolding execute task_env
  run_command t workspace_dir command = do
    result ← execute sys runner (task_request t workspace_dir command.0)
    remove_temp command.1
    pure result

  abbrev pub nothing_to_do : ExecutionResult V
  nothing_to_do = record (failed_with []) { exit_code = pos 0 }

  -- Without a command, the repository is made ready if that was not done before.
  unfoldable pub run_nothing : TaskArgs → Text → Step V (ExecutionResult V)
  unfolding ensure_repo_ready
  run_nothing t workspace_dir = do
    prepare_repo (not t.prepare_repo_before_execute) t workspace_dir true
    cleanup_workspace_dir_if_needed workspace_dir t.cleanup_workspace_on_success nothing_to_do
    pure nothing_to_do

  unfoldable pub run_script : TaskArgs → Text → Step V (ExecutionResult V)
  unfolding ensure_python_deps create_temp_code_file run_command
  run_script t workspace_dir = do
    python_deps (if is_python t then repo_name t else none) workspace_dir
    command ← actual_command t workspace_dir
    result ← run_command t workspace_dir command
    cleanup_workspace_dir_if_needed workspace_dir t.cleanup_workspace_on_success result
    pure result

  abbrev pub run_by : Bool → TaskArgs → Text → Step V (ExecutionResult V)
  run_by true t workspace_dir = run_nothing t workspace_dir
  run_by false t workspace_dir = run_script t workspace_dir

  unfoldable pub run_in : TaskArgs → Text → Step V (ExecutionResult V)
  unfolding run_nothing run_script ensure_repo_ready
  run_in t workspace_dir = do
    prepare_repo t.prepare_repo_before_execute t workspace_dir false
    run_by (not (in_code_mode t) && is_empty t.command) t workspace_dir

  abbrev pub ended : Flow V (ExecutionResult V) × List Call → ExecutionResult V × List Call
  ended out = (result_in out.0, out.1)

  unfoldable pub run_task : TaskArgs → List Call → ExecutionResult V × List Call
  unfolding workspace run_in
  run_task t calls = ended ((workspace t >>= λ workspace_dir. run_in t workspace_dir) calls)
