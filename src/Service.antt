-- ===== src/Service.antt =====
-- agent/src/service.rs and agent/src/service_linux.rs: the agent as a service of systemd. What is
-- printed is left out, and the errors of the platform are texts.
pub mod Instances
use tasknexus_client_agent.Prelude.{
  ℕ, ℤ, pos, negsuc, Bool, true, false, ◌&&◌, not, Option, none, some, List, [], ◌∷◌, ◌++◌,
  if◌then◌else◌, is_empty, is_some, or_else, Map, insert, remove, contains_key, text_eq, ◌==◌, ◌⊎◌,
  inl, inr,
}
use tasknexus_client_agent.Text.{Text, codes, trim}
use tasknexus_client_agent.Utf8.{Bytes, from_utf8_lossy}
use tasknexus_client_agent.Executor.Paths.{join, parent}

abbrev pub default_service_name : Text
default_service_name = codes "tasknexus"

abbrev pub service_display_name : Text
service_display_name = codes "TaskNexus Agent"

abbrev pub service_description : Text
service_description =
    codes "TaskNexus client agent - connects to TaskNexus server and executes remote tasks"

-- Each but `install` has the service's name only.
pub data ServiceAction : Type 0 where
  install : (config name : Text) → ServiceAction
  uninstall start stop restart status : (name : Text) → ServiceAction

unfoldable pub display_name_for : Text → Text
display_name_for service_name =
    if service_name == default_service_name
    then service_display_name
    else service_display_name ++ (codes " (" ++ (service_name ++ codes ")"))

-- The output of a command that could be run.
pub record Output : Type 0 where
  pub success : Bool
  pub code : Option ℤ
  pub stderr : Bytes

-- The files of the units, and the calls of systemctl so far.
pub record World : Type 0 where
  pub units : Map Text Text
  pub calls : List (List Text)

-- The system: the answers of systemctl after the calls so far, those of the file system, and how
-- Rust writes arguments and numbers.
pub record Host : Type 0 where
  pub systemctl : List (List Text) → List Text → Text ⊎ Output
  pub current_exe : Text ⊎ Text
  pub canonicalize : Text → Text ⊎ Text
  pub exists : Text → Bool
  pub write_fault : Option Text
  pub remove_fault : Option Text
  pub debug : List Text → Text
  pub integer : ℤ → Text

-- A step of a command, which may fail.
abbrev pub Step : Type 0
Step = World → (Text ⊎ Unit {0}) × World

abbrev pub after : (Text ⊎ Unit {0}) × World → Step → (Text ⊎ Unit {0}) × World
after (inl e, w) rest = (inl e, w)
after (inr done, w) rest = rest w

infixl 5 ◌>>◌
-- `?` behind a step
abbrev pub ◌>>◌ : Step → Step → Step
(m >> rest) w = after (m w) rest

-- `let _ = …`
abbrev pub ignored : Step → Step
ignored m w = (inr tt, (m w).1)

unfoldable pub unit_file_path : Text → Text
unit_file_path service_name = codes "/etc/systemd/system/" ++ (service_name ++ codes ".service")

unfoldable pub unit_name : Text → Text
unit_name service_name = service_name ++ codes ".service"

abbrev pub venv_lines : Text → Text
venv_lines venv =
    codes "Environment=\"VIRTUAL_ENV="
    ++ (venv
        ++ (codes "\"\nEnvironment=\"PATH="
            ++ (venv
                ++ codes "/bin:/usr/local/sbin:/usr/local/bin:/usr/sbin:/usr/bin:/sbin:/bin\"\n")))

unfoldable pub unit_content : Text → Text → Text → Text → Text
unit_content exe config service_name env_lines =
    codes "[Unit]\nDescription="
    ++ (service_description
        ++ (codes
              "\nAfter=network-online.target\nWants=network-online.target\n\n[Service]\nType=simple\nExecStart="
            ++ (exe
                ++ (codes " run --config "
                    ++ (config
                        ++ (codes " --service-name "
                            ++ (service_name
                                ++ (codes
                                      "\nRestart=on-failure\nRestartSec=5\nKillMode=mixed\nTimeoutStopSec=30\n"
                                    ++ (env_lines
                                        ++ codes
                                            "\n[Install]\nWantedBy=multi-user.target\n")))))))))

module _ (host : Host) where
  abbrev pub result_of : List Text → Text ⊎ Output → Text ⊎ Unit {0}
  result_of args (inl e) = inl (codes "执行 systemctl " ++ (host.debug args ++ (codes " 失败: " ++ e)))
  result_of args (inr output) =
      if not output.success
      then inl (
          codes "systemctl "
          ++ (host.debug args
              ++ (codes " 失败 (exit "
                  ++ (host.integer (or_else output.code (negsuc 0))
                      ++ (codes "): " ++ trim (from_utf8_lossy output.stderr))))))
      else inr tt

  unfoldable pub run_systemctl : List Text → Step
  run_systemctl args w =
      (result_of args (host.systemctl w.calls args), record w { calls = w.calls ++ args ∷ [] })

  abbrev pub env_lines_of : Option Text → Text
  env_lines_of none = []
  env_lines_of (some exe_dir) =
      let venv_path = join exe_dir (codes ".venv") in
      if host.exists venv_path then venv_lines venv_path else []

  abbrev pub write_unit : Option Text → Text → Text → Step
  write_unit (some e) path content w =
      (inl (codes "写入 unit 文件 '" ++ (path ++ (codes "' 失败（可能需要 root 权限）: " ++ e))), w)
  write_unit none path content w = (inr tt, record w { units = insert path content w.units })

  abbrev pub install_from : Text ⊎ Text → Text → Text → Step
  install_from (inl e) service_name config w = (inl e, w)
  install_from (inr exe) service_name config w =
      (write_unit host.write_fault (unit_file_path service_name)
            (unit_content exe config service_name (env_lines_of (parent exe)))
          >> run_systemctl (codes "daemon-reload" ∷ [])
          >> run_systemctl (codes "enable" ∷ unit_name service_name ∷ []))
        w

  unfoldable pub install_service : Text → Text → Step
  unfolding unit_file_path unit_name unit_content run_systemctl parent join
  install_service service_name config = install_from host.current_exe service_name config

  abbrev pub remove_unit : Option Text → Text → Step
  remove_unit (some e) path w =
      (inl (codes "删除 unit 文件 '" ++ (path ++ (codes "' 失败（可能需要 root 权限）: " ++ e))), w)
  remove_unit none path w = (inr tt, record w { units = remove path w.units })

  abbrev pub remove_existing : Text → Step
  remove_existing path w =
      if contains_key path w.units then remove_unit host.remove_fault path w else (inr tt, w)

  unfoldable pub uninstall_service : Text → Step
  unfolding unit_file_path unit_name run_systemctl
  uninstall_service service_name =
      ignored (run_systemctl (codes "stop" ∷ unit_name service_name ∷ []))
      >> ignored (run_systemctl (codes "disable" ∷ unit_name service_name ∷ []))
      >> remove_existing (unit_file_path service_name)
      >> run_systemctl (codes "daemon-reload" ∷ [])

  unfoldable pub start_service : Text → Step
  unfolding unit_name run_systemctl
  start_service service_name = run_systemctl (codes "start" ∷ unit_name service_name ∷ [])

  unfoldable pub stop_service : Text → Step
  unfolding unit_name run_systemctl
  stop_service service_name = run_systemctl (codes "stop" ∷ unit_name service_name ∷ [])

  abbrev pub status_of : Text ⊎ Output → Text ⊎ Unit {0}
  status_of (inl e) = inl (codes "执行 systemctl 失败: " ++ e)
  status_of (inr output) = inr tt

  -- Any status that can be asked for is a success.
  unfoldable pub query_service_status : Text → Step
  unfolding unit_name
  query_service_status service_name w =
      let args = codes "status" ∷ unit_name service_name ∷ codes "--no-pager" ∷ [] in
      (status_of (host.systemctl w.calls args), record w { calls = w.calls ++ args ∷ [] })

  abbrev pub exit_code : (Text ⊎ Unit {0}) × World → ℕ × World
  exit_code (inl e, w) = (1, w)
  exit_code (inr done, w) = (0, w)

  abbrev pub install_config : Text ⊎ Text → Text → Step
  install_config (inl e) name w = (inl e, w)
  install_config (inr config_path) name w =
      if not (host.exists config_path)
      then (inl (codes "配置文件不存在: " ++ config_path), w)
      else install_service name config_path w

  abbrev pub command_of : ServiceAction → Step
  command_of (install config name) = install_config (host.canonicalize config) name
  command_of (uninstall name) = uninstall_service name
  command_of (start name) = start_service name
  command_of (stop name) = stop_service name
  command_of (restart name) = stop_service name >> start_service name
  command_of (status name) = query_service_status name

  -- The exit code of the process: `handle_service_command` does not return.
  unfoldable pub handle_service_command : ServiceAction → World → ℕ × World
  unfolding install_service uninstall_service start_service stop_service query_service_status
  handle_service_command action w = exit_code (command_of action w)
