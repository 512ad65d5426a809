-- ===== src/Executor/Process.antt =====
-- `CommandExecutor::execute` of agent/src/executor.rs, on Linux: a command becomes a process, and the
-- way the process ends becomes a result.
pub mod Ending
use tasknexus_client_agent.Prelude.{
  ℕ, ℤ, pos, negsuc, Bool, true, false, ◌&&◌, Option, none, some, List, [], ◌∷◌, ◌++◌,
  if◌then◌else◌, or_else, Map, remove, get, text_eq,
}
use tasknexus_client_agent.Text.{Text, codes}
use tasknexus_client_agent.Utf8.{Bytes}
use tasknexus_client_agent.Executor.Output.{empty_tail, finish}
use tasknexus_client_agent.Executor.Output.Tail.{append_all}
use tasknexus_client_agent.Executor.Stream.{read_chunks}
use tasknexus_client_agent.Executor.Capture.{new_capture, finish_capture}
use tasknexus_client_agent.Executor.Capture.Shown.{process_chunks}
use tasknexus_client_agent.Executor.Command.{resolve_shell_path, shell_name_from_path, shell_args}

pub record ExecutionResult (V : Type 0) : Type 0 where
  pub exit_code : ℤ
  pub stdout : Text
  pub stderr : Text
  pub timed_out : Bool
  pub cancelled : Bool
  pub result : Map Text V

-- What `execute` is given. `has_cancel` says whether a receiver of the cancel signal is.
pub record Request : Type 0 where
  pub command : Text
  pub working_dir : Option Text
  pub environment : Option (Map Text Text)
  pub timeout_secs : Option ℕ
  pub has_cancel : Bool

-- The process that the system is asked for, and how long it may run. `env` is set by `Command::env`,
-- on top of the environment that the process inherits from the agent's.
pub record Spawn : Type 0 where
  pub program : Text
  pub args : List Text
  pub current_dir : Option Text
  pub env : Map Text Text
  pub timeout_secs : ℕ
  pub has_cancel : Bool

abbrev pub first_of : Option Text → Option Text → Option Text
first_of none other = other
first_of (some value) other = some value

-- The value of a variable in a process, given the environment of the agent's own process: what
-- `Command::env` set is before what is inherited.
abbrev pub variable_in : Map Text Text → Spawn → Text → Option Text
variable_in inherited s key = first_of (get key s.env) (get key inherited)

-- What a process does: its status as far as `code` gives one, and the reads of its output, where
-- `none` is a reading task that panicked.
pub record Finished : Type 0 where
  pub status : Option ℤ
  pub stdout_reads : Option (List Bytes)
  pub stderr_reads : Option (List Bytes)

-- `finished` is `none` for a process that is not done in time; `signalled` says that the cancel
-- signal comes before that.
pub record Behaviour : Type 0 where
  pub spawn_error : Option Text
  pub signalled : Bool
  pub finished : Option Finished

-- The variables that the loop passes on.
unfoldable pub passed_env : Option (Map Text Text) → Map Text Text
passed_env none = []
passed_env (some env) = remove (codes "SHELL") env

unfoldable pub spawn_of : ℕ → Request → Spawn
unfolding resolve_shell_path shell_name_from_path shell_args passed_env
spawn_of default_timeout r =
    let shell_path = resolve_shell_path r.environment in
    record {
      program = shell_path;
      args = shell_args (shell_name_from_path shell_path) ++ r.command ∷ [];
      current_dir = r.working_dir;
      env = passed_env r.environment;
      timeout_secs = or_else r.timeout_secs default_timeout;
      has_cancel = r.has_cancel;
    }

module _ {V : Type 0} where
  abbrev pub failed_with : Text → ExecutionResult V
  failed_with message = record {
    exit_code = negsuc 0;
    stdout = [];
    stderr = message;
    timed_out = false;
    cancelled = false;
    result = [];
  }

module _ {V : Type 0} (from_str : Text → Option (Map Text V)) (decimal : ℕ → Text) where
  abbrev pub stdout_of : Option (List Bytes) → Text × Map Text V
  stdout_of none = ([], [])
  stdout_of (some reads) =
      finish_capture decimal (process_chunks from_str (read_chunks [] reads) new_capture).1

  abbrev pub stderr_of : Option (List Bytes) → Text
  stderr_of none = []
  stderr_of (some reads) = finish decimal (append_all (read_chunks [] reads) empty_tail)

  abbrev pub in_time : Spawn → Option Finished → ExecutionResult V
  in_time s none =
      record (failed_with
        (codes "Command timed out after " ++ (decimal s.timeout_secs ++ codes " seconds"))) {
          timed_out = true;
        }
  in_time s (some f) =
      let out = stdout_of f.stdout_reads in
      record {
        exit_code = or_else f.status (negsuc 0);
        stdout = out.0;
        stderr = stderr_of f.stderr_reads;
        timed_out = false;
        cancelled = false;
        result = out.1;
      }

  abbrev pub spawned : Spawn → Behaviour → ExecutionResult V
  spawned s b =
      if s.has_cancel && b.signalled
      then record (failed_with (codes "Task was cancelled")) { cancelled = true }
      else in_time s b.finished

  abbrev pub ending_of : Option Text → Spawn → Behaviour → ExecutionResult V
  ending_of (some e) s b = failed_with e
  ending_of none s b = spawned s b

  -- The result of a process that behaves so.
  unfoldable pub result_of : Spawn → Behaviour → ExecutionResult V
  result_of s b = ending_of b.spawn_error s b
