-- ===== src/Service/Instances.antt =====
-- The instances of the service of agent/src/service_linux.rs keep to their own units.
use tasknexus_client_agent.Prelude.{
  ◌≡◌, ◌≢◌, refl, sym, ap, ◌∙◌, false, not, Option, none, some, List, [], ◌∷◌, ◌++◌, length,
  length-append, take, take-append_length, drop, drop-append_length, arith, if-both, get,
  get-insert, get-remove, contains_key, text_eq, text_beq_iff, ◌==◌, ==_refl, ◌⊎◌, inl, inr,
  Bool-cases,
}
use tasknexus_client_agent.Text.{Text, codes}
use tasknexus_client_agent.Executor.Paths.{parent}
use tasknexus_client_agent.Service.{
  unit_content, service_description, ServiceAction, install, uninstall, start, stop, restart,
  status, Host, World, Step, after, ◌>>◌, ignored, unit_file_path, unit_name, unit_content,
  run_systemctl, env_lines_of, write_unit, install_from, install_service, remove_unit,
  remove_existing, uninstall_service, start_service, stop_service, query_service_status, exit_code,
  install_config, command_of, handle_service_command,
}

same_length : (s t u : Text) → s ++ u ≡ t ++ u → length s ≡ length t
same_length s t u e = omega (arith, ap length e, length-append s u, length-append t u)

suffix_cancel : (s t u : Text) → s ++ u ≡ t ++ u → s ≡ t
suffix_cancel s t u e =
    sym (take-append_length s u)
    ∙ ap (take (length s)) e
    ∙ ap (λ n. take n (t ++ u)) (same_length s t u e)
    ∙ take-append_length t u

prefix_cancel : (s t u : Text) → s ++ t ≡ s ++ u → t ≡ u
prefix_cancel s t u e =
    sym (drop-append_length s t) ∙ ap (drop (length s)) e ∙ drop-append_length s u

unit_file_path-inj : (s t : Text) → unit_file_path s ≡ unit_file_path t → s ≡ t
unfolding unit_file_path
unit_file_path-inj s t e =
    suffix_cancel s t (codes ".service") (
      prefix_cancel (codes "/etc/systemd/system/") (s ++ codes ".service") (t ++ codes ".service")
        e)

abbrev pub name_in : ServiceAction → Text
name_in (install config name) = name
name_in (uninstall name) = name
name_in (start name) = name
name_in (stop name) = name
name_in (restart name) = name
name_in (status name) = name

-- A step that leaves the unit at a path alone
abbrev Keeps : Text → Step → Type 0
Keeps path m = (w : World) → get path (m w).1.units ≡ get path w.units

after-Keeps :
    (path : Text) (out : (Text ⊎ Unit {0}) × World) (rest : Step)
    → Keeps path rest
    → get path (after out rest).1.units ≡ get path out.1.units
after-Keeps path (inl e, w) rest k = refl
after-Keeps path (inr done, w) rest k = k w

>>-Keeps : (path : Text) (m rest : Step) → Keeps path m → Keeps path rest → Keeps path (m >> rest)
>>-Keeps path m rest p k w = after-Keeps path (m w) rest k ∙ p w

run_systemctl-Keeps :
    (host : Host) (path : Text) (args : List Text) → Keeps path (run_systemctl host args)
unfolding run_systemctl
run_systemctl-Keeps host path args w = refl

module _ (host : Host) (name other : Text) (apart : name ≢ other) where
  paths_differ : (unit_file_path name == unit_file_path other) ≡ false
  paths_differ = elim (Bool-cases (unit_file_path name == unit_file_path other)) [
    | inl same ↦
        elim (apart (
          unit_file_path-inj name other
            ((text_beq_iff (unit_file_path name) (unit_file_path other)).0 same))) [ ]
    | inr differ ↦ differ
  ]

  write_unit-Keeps :
      (fault : Option Text) (content : Text)
      → Keeps (unit_file_path other) (write_unit host fault (unit_file_path name) content)
  write_unit-Keeps none content w = rw (get-insert, paths_differ) refl
  write_unit-Keeps (some e) content w = refl

  remove_unit-Keeps :
      (fault : Option Text)
      → Keeps (unit_file_path other) (remove_unit host fault (unit_file_path name))
  remove_unit-Keeps none w = rw (get-remove, paths_differ) refl
  remove_unit-Keeps (some e) w = refl

  install_service-Keeps :
      (exe : Text ⊎ Text) (config : Text)
      → Keeps (unit_file_path other) (install_from host exe name config)
  install_service-Keeps (inl e) config w = refl
  install_service-Keeps (inr exe) config w =
      let content = unit_content exe config name (env_lines_of host (parent exe)) in
      >>-Keeps (unit_file_path other)
        (write_unit host host.write_fault (unit_file_path name) content
          >> run_systemctl host (codes "daemon-reload" ∷ []))
        (run_systemctl host (codes "enable" ∷ unit_name name ∷ []))
        (>>-Keeps (unit_file_path other)
          (write_unit host host.write_fault (unit_file_path name) content)
          (run_systemctl host (codes "daemon-reload" ∷ []))
          (write_unit-Keeps host.write_fault content)
          (run_systemctl-Keeps host (unit_file_path other) (codes "daemon-reload" ∷ [])))
        (run_systemctl-Keeps host (unit_file_path other) (codes "enable" ∷ unit_name name ∷ [])) w

  remove_existing-Keeps : Keeps (unit_file_path other) (remove_existing host (unit_file_path name))
  remove_existing-Keeps w =
      if-both
        (λ (out : (Text ⊎ Unit {0}) × World).
          get (unit_file_path other) out.1.units ≡ get (unit_file_path other) w.units)
        (contains_key (unit_file_path name) w.units) (λ _. remove_unit-Keeps host.remove_fault w)
        (λ _. refl)

  ignored-Keeps :
      (m : Step) → Keeps (unit_file_path other) m → Keeps (unit_file_path other) (ignored m)
  ignored-Keeps m k w = k w

  uninstall_service-Keeps : Keeps (unit_file_path other) (uninstall_service host name)
  unfolding uninstall_service
  uninstall_service-Keeps =
      let path = unit_file_path other in
      let stop_it = ignored (run_systemctl host (codes "stop" ∷ unit_name name ∷ [])) in
      let disable_it = ignored (run_systemctl host (codes "disable" ∷ unit_name name ∷ [])) in
      let remove_it = remove_existing host (unit_file_path name) in
      >>-Keeps path (stop_it >> disable_it >> remove_it)
        (run_systemctl host (codes "daemon-reload" ∷ []))
        (>>-Keeps path (stop_it >> disable_it) remove_it
          (>>-Keeps path stop_it disable_it
            (run_systemctl-Keeps host (unit_file_path other) (codes "stop" ∷ unit_name name ∷ []))
            (run_systemctl-Keeps host (unit_file_path other)
              (codes "disable" ∷ unit_name name ∷ [])))
          remove_existing-Keeps)
        (run_systemctl-Keeps host (unit_file_path other) (codes "daemon-reload" ∷ []))

  install_config-Keeps :
      (config : Text ⊎ Text) → Keeps (unit_file_path other) (install_config host config name)
  unfolding install_service
  install_config-Keeps (inl e) w = refl
  install_config-Keeps (inr path) w =
      if-both
        (λ (out : (Text ⊎ Unit {0}) × World).
          get (unit_file_path other) out.1.units ≡ get (unit_file_path other) w.units)
        (not (host.exists path)) (λ _. refl) (λ _. install_service-Keeps host.current_exe path w)

command-Keeps :
    (host : Host) (action : ServiceAction) (other : Text)
    → name_in action ≢ other
    → Keeps (unit_file_path other) (command_of host action)
unfolding start_service stop_service query_service_status
command-Keeps host (install config name) other apart w =
    install_config-Keeps host name other apart (host.canonicalize config) w
command-Keeps host (uninstall name) other apart w = uninstall_service-Keeps host name other apart w
command-Keeps host (start name) other apart w =
    run_systemctl-Keeps host (unit_file_path other) (codes "start" ∷ unit_name name ∷ []) w
command-Keeps host (stop name) other apart w =
    run_systemctl-Keeps host (unit_file_path other) (codes "stop" ∷ unit_name name ∷ []) w
command-Keeps host (restart name) other apart w =
    >>-Keeps (unit_file_path other) (stop_service host name) (start_service host name)
      (run_systemctl-Keeps host (unit_file_path other) (codes "stop" ∷ unit_name name ∷ []))
      (run_systemctl-Keeps host (unit_file_path other) (codes "start" ∷ unit_name name ∷ [])) w
command-Keeps host (status name) other apart w = refl

exit_code-world : (host : Host) (out : (Text ⊎ Unit {0}) × World) → (exit_code host out).1 ≡ out.1
exit_code-world host (inl e, w) = refl
exit_code-world host (inr done, w) = refl

-- Whatever a command does to one instance of the service, and however it ends: the unit of every
-- instance with another name stays as it is.
pub handle_service_command-instances :
    (host : Host) (action : ServiceAction) (other : Text) (w : World)
    → name_in action ≢ other
    → get (unit_file_path other) (handle_service_command host action w).1.units
      ≡ get (unit_file_path other) w.units
unfolding handle_service_command
handle_service_command-instances host action other w apart =
    ap (λ v. get (unit_file_path other) v.units) (exit_code-world host (command_of host action w))
    ∙ command-Keeps host action other apart w

-- The unit of an instance is there, and what it starts is the binary that runs, with the
-- configuration that was given and the name of the instance.
abbrev pub IsInstalled : Host → Text ⊎ Text → Text ⊎ Text → Text → World → Type 0
IsInstalled host exe_path config_path name done =
    (exe : Text) × (path : Text) × (exe_path ≡ inr exe)
    × (config_path ≡ inr path)
    × (before : Text) × (behind : Text) × (get (unit_file_path name) done.units
        ≡ some (
            before
            ++ (codes "\n[Service]\nType=simple\nExecStart="
                ++ (exe
                    ++ (codes " run --config "
                        ++ (path
                            ++ (codes " --service-name " ++ (name ++ (codes "\n" ++ behind)))))))))

module _ (host : Host) (name : Text) where
  install_from-unit :
      (fault : Option Text) (content : Text) (w : World)
      → let out =
          (write_unit host fault (unit_file_path name) content
              >> run_systemctl host (codes "daemon-reload" ∷ [])
              >> run_systemctl host (codes "enable" ∷ unit_name name ∷ []))
            w in
        (exit_code host out).0 ≡ 0
        → get (unit_file_path name) (exit_code host out).1.units ≡ some content
  install_from-unit none content w h =
      let path = unit_file_path name in
      let reload = run_systemctl host (codes "daemon-reload" ∷ []) in
      let enable = run_systemctl host (codes "enable" ∷ unit_name name ∷ []) in
      let written = write_unit host none path content w in
      ap (λ v. get path v.units) (exit_code-world host (after (after written reload) enable))
      ∙ after-Keeps path (after written reload) enable
          (run_systemctl-Keeps host path (codes "enable" ∷ unit_name name ∷ []))
      ∙ after-Keeps path written reload (run_systemctl-Keeps host path (codes "daemon-reload" ∷ []))
      ∙ rw (get-insert, ==_refl path) refl
  install_from-unit (some e) content w h = ground arith

  install_from-IsInstalled :
      (exe_path : Text ⊎ Text) (path : Text) (w : World)
      → (exit_code host (install_from host exe_path name path w)).0 ≡ 0
      → IsInstalled host exe_path
          (inr path)
          name
          (exit_code host (install_from host exe_path name path w)).1
  unfolding unit_content
  install_from-IsInstalled (inl e) path w h = ground arith
  install_from-IsInstalled (inr exe) path w h =
      let content = unit_content exe path name (env_lines_of host (parent exe)) in
      (
        exe,
        path,
        refl,
        refl,
        codes "[Unit]\nDescription="
            ++ (service_description
                ++ codes "\nAfter=network-online.target\nWants=network-online.target\n"),
        codes "Restart=on-failure\nRestartSec=5\nKillMode=mixed\nTimeoutStopSec=30\n"
            ++ (env_lines_of host (parent exe)
                ++ codes "\n[Install]\nWantedBy=multi-user.target\n"),
        install_from-unit host.write_fault content w h,
      )

  install_config-IsInstalled :
      (config_path : Text ⊎ Text) (w : World)
      → (exit_code host (install_config host config_path name w)).0 ≡ 0
      → IsInstalled host host.current_exe config_path name
          (exit_code host (install_config host config_path name w)).1
  unfolding install_service
  install_config-IsInstalled (inl e) w h = ground arith
  install_config-IsInstalled (inr path) w h =
      if-both
        (λ (out : (Text ⊎ Unit {0}) × World).
          (exit_code host out).0 ≡ 0
          → IsInstalled host host.current_exe (inr path) name (exit_code host out).1)
        (not (host.exists path)) (λ _ refused. ground arith)
        (λ _ done. install_from-IsInstalled host.current_exe path w done) h

  -- An installation that ends with the exit code 0 has written the unit of its instance: it starts
  -- the binary that runs now, with the configuration that was given, by its canonical path.
  pub handle_service_command-IsInstalled :
      (config : Text) (w : World)
      → (handle_service_command host (install config name) w).0 ≡ 0
      → IsInstalled host host.current_exe
          (host.canonicalize config)
          name
          (handle_service_command host (install config name) w).1
  unfolding handle_service_command
  handle_service_command-IsInstalled config w h =
      install_config-IsInstalled (host.canonicalize config) w h
