-- ===== src/Executor/Runner.antt =====
-- `TaskRunner` of agent/src/executor.rs: a task from its workspace to its result. What the system
-- does is a `System`, whose answers may depend on every call before; the calls are kept in order.
pub mod Calls
pub mod Steps
pub mod Clone
pub mod Task
use tasknexus_client_agent.Prelude.{
  ℕ, ℤ, pos, int_eq, Bool, true, false, ◌&&◌, not, Option, none, some, List, [], ◌∷◌, ◌++◌,
  if◌then◌else◌, is_empty, or_else, Map, insert, text_eq, ◌==◌,
}
use tasknexus_client_agent.Text.{Text, codes}
use tasknexus_client_agent.Executor.Process.{
  ExecutionResult, Request, Spawn, Behaviour, spawn_of, result_of, failed_with,
}
use tasknexus_client_agent.Executor.Command.{inject_token_into_url}
use tasknexus_client_agent.Executor.Paths.{join, file_name, parent, is_relative}
use tasknexus_client_agent.Executor.Script.{
  clone_command, update_command, build_pip_install_command,
}

-- The calls of the system that change something, with how they ended; `removed_dir` also stands for a
-- removal that fails, which is only logged.
pub data Call : Type 0 where
  created create_failed : Text → Call
  ran : Spawn → Behaviour → Call
  wrote : Text → Text → Call
  write_failed : Text → Call
  removed_file remove_failed removed_dir : Text → Call

-- The file system, the processes and the clock, after the calls so far; an error is its text. Then
-- serde_json at a map, and `to_string` of numbers.
pub record System (V : Type 0) : Type 0 where
  pub create_dir_all : List Call → Text → Option Text
  pub canonicalize : List Call → Text → Option Text
  pub current_dir : Option Text
  pub exists : List Call → Text → Bool
  pub write : List Call → Text → Text → Option Text
  pub remove_file : List Call → Text → Option Text
  pub behave : List Call → Spawn → Behaviour
  pub as_nanos : List Call → ℕ
  pub from_str : Text → Option (Map Text V)
  pub decimal : ℕ → Text
  pub integer : ℤ → Text

pub record TaskRunner : Type 0 where
  pub workspaces_path : Text
  pub default_timeout : ℕ
  pub base_env : Map Text Text

-- `TaskRunner::new`, without the directory that it makes
unfoldable pub new_runner : Text → Map Text Text → TaskRunner
new_runner workspaces_path base_env = record {
  workspaces_path = workspaces_path;
  default_timeout = 3600;
  base_env = base_env;
}

-- A part of `run_task` returns from it, or goes on.
pub data Flow (V : Type 0) (A : Type 0) : Type 0 where
  returns : ExecutionResult V → Flow V A
  goes : A → Flow V A

abbrev pub Step : Type 0 → Type 0 → Type 0
Step V A = List Call → Flow V A × List Call

module _ {V : Type 0} where
  abbrev pub pure : {A : Type 0} → A → Step V A
  pure a calls = (goes a, calls)

  abbrev pub return_early : {A : Type 0} → ExecutionResult V → Step V A
  return_early r calls = (returns r, calls)

  abbrev pub note : Call → Step V (Unit {0})
  note call calls = (goes tt, calls ++ call ∷ [])

  abbrev pub after : {A B : Type 0} → Flow V A × List Call → (A → Step V B) → Flow V B × List Call
  after (returns r, calls) rest = (returns r, calls)
  after (goes a, calls) rest = rest a calls

abbrev pub result_in : {V : Type 0} → Flow V (ExecutionResult V) → ExecutionResult V
result_in (returns r) = r
result_in (goes r) = r

infixl 5 ◌>>=◌ ◌>>◌
abbrev pub ◌>>=◌ : {V A B : Type 0} → Step V A → (A → Step V B) → Step V B
◌>>=◌ m rest calls = after (m calls) rest

abbrev pub ◌>>◌ : {V B : Type 0} → Step V (Unit {0}) → Step V B → Step V B
m >> rest = m >>= λ _. rest

abbrev pub zero_exit : {V : Type 0} → ExecutionResult V → Bool
zero_exit r = r.exit_code == pos 0

-- `if result.exit_code != 0 { return result; }`
abbrev pub unless_failed : {V : Type 0} → ExecutionResult V → Step V (Unit {0})
unless_failed r calls = if zero_exit r then (goes tt, calls) else (returns r, calls)

module _ {V : Type 0} (sys : System V) (runner : TaskRunner) where
  unfoldable pub execute : Request → Step V (ExecutionResult V)
  unfolding spawn_of result_of
  execute request calls =
      let spawn = spawn_of runner.default_timeout request in
      let behaviour = sys.behave calls spawn in
      (goes (result_of sys.from_str sys.decimal spawn behaviour), calls ++ ran spawn behaviour ∷ [])

  -- The environment of git never asks for a password.
  abbrev pub git_env : Option (Map Text Text)
  git_env = some (insert (codes "GIT_TERMINAL_PROMPT") (codes "0") runner.base_env)

  abbrev pub clone_request : Text → Text → Text → Option Text → Request
  clone_request repo_url target_path ref_name token = record {
    command =
        clone_command ref_name (inject_token_into_url repo_url token)
          (or_else (file_name target_path) (codes "repo"));
    working_dir = parent target_path;
    environment = git_env;
    timeout_secs = some 300;
    has_cancel = false;
  }

  unfoldable pub clone_repo : Text → Text → Text → Option Text → Step V (ExecutionResult V)
  unfolding execute
  clone_repo repo_url target_path ref_name token =
      execute (clone_request repo_url target_path ref_name token)

  abbrev pub update_request : Text → Text → Text → Option Text → Request
  update_request repo_url repo_path ref_name token = record {
    command = update_command (inject_token_into_url repo_url token) ref_name;
    working_dir = some repo_path;
    environment = git_env;
    timeout_secs = some 120;
    has_cancel = false;
  }

  unfoldable pub update_repo : Text → Text → Text → Option Text → Step V (ExecutionResult V)
  unfolding execute
  update_repo repo_url repo_path ref_name token =
      execute (update_request repo_url repo_path ref_name token)

  abbrev pub unless_continue : Bool → ExecutionResult V → Step V (Unit {0})
  unless_continue true r calls = (goes tt, calls)
  unless_continue false r calls = unless_failed r calls

  -- Every caller returns the result that this gives, if it gives one.
  unfoldable pub ensure_repo_ready :
      Text → Text → Text → Text → Option Text → Bool → Step V (Unit {0})
  unfolding clone_repo update_repo join
  ensure_repo_ready workspace_dir repo_name repo_url ref_name token continue calls =
      let repo_path = join workspace_dir repo_name in
      if not (sys.exists calls repo_path)
      then (clone_repo repo_url repo_path ref_name token >>= unless_failed) calls
      else (update_repo repo_url repo_path ref_name token >>= unless_continue continue) calls

  abbrev pub pip_request : Text → Request
  pip_request repo_dir = record {
    command = build_pip_install_command (codes "requirements.txt");
    working_dir = some repo_dir;
    environment = some runner.base_env;
    timeout_secs = some 300;
    has_cancel = false;
  }

  unfoldable pub ensure_python_deps : Text → Step V (Unit {0})
  unfolding execute join
  ensure_python_deps repo_dir calls =
      if not (sys.exists calls (join repo_dir (codes "requirements.txt")))
      then (goes tt, calls)
      else (execute (pip_request repo_dir) >>= unless_failed) calls

abbrev pub is_success : {V : Type 0} → ExecutionResult V → Bool
is_success r = zero_exit r && (not r.timed_out && not r.cancelled)

abbrev pub cleanup_workspace_dir_if_needed :
    {V : Type 0} → Text → Bool → ExecutionResult V → Step V (Unit {0})
cleanup_workspace_dir_if_needed workspace_dir cleanup_workspace_on_success r calls =
    if cleanup_workspace_on_success && is_success r
    then (goes tt, calls ++ removed_dir workspace_dir ∷ [])
    else (goes tt, calls)
