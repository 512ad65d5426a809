-- ===== src/SelfUpdate/Perform.antt =====
-- `perform_self_update` of agent/src/self_update.rs.
pub mod Safe
use tasknexus_client_agent.Prelude.{
  ℕ, Bool, true, false, Option, none, some, List, [], ◌∷◌, ◌++◌, if◌then◌else◌, insert, text_eq,
}
use tasknexus_client_agent.Text.{Text, codes, starts_with}
use tasknexus_client_agent.Error.{AgentError, io, execution, Result, ok, err, ◌>>=◌}
use tasknexus_client_agent.Executor.Paths.{join}
use tasknexus_client_agent.SelfUpdate.Files.{
  Files, Faults, Action, and_then, put, ensure_executable, replace_current_binary,
}
use tasknexus_client_agent.SelfUpdate.Release.{
  Server, Platform, ReleasePlan, http_get_bytes, resolve_release_plan, resolve_direct_download_plan,
}

-- The directory for the download: its name, and how the calls on it end. A write that fails may leave
-- a part of the file.
pub record Temp : Type 0 where
  pub temp_dir : Text
  pub process_id : Text
  pub as_millis : Text
  pub create_fault : Option Text
  pub write_fault : Option (Text × Option Text)
  pub remove_fault : Bool

abbrev pub temp_path : Temp → Text
temp_path temp =
    join temp.temp_dir
      (codes "tasknexus-self-update-" ++ (temp.process_id ++ (codes "-" ++ temp.as_millis)))

abbrev pub is_below : Text → Text → Bool
is_below dir path = starts_with (dir ++ codes "/") path

abbrev pub remove_all : Text → Files → Files
remove_all dir [] = []
remove_all dir ((path, content) ∷ files) =
    let rest = remove_all dir files in if is_below dir path then rest else (path, content) ∷ rest

-- `remove_dir_all`, whose error is ignored
abbrev pub remove_dir_all : Bool → Text → Files → Files
remove_dir_all true dir files = files
remove_dir_all false dir files = remove_all dir files

abbrev pub written : Option (Text × Option Text) → Text → Text → Action
written none path bytes files = (ok tt, insert path bytes files)
written (some fault) path bytes files = (
  err (execution (codes "Failed to write downloaded file '" ++ (path ++ (codes "': " ++ fault.0)))),
  put path fault.1 files,
)

abbrev pub save_in : Option (Text × Option Text) → Text → Result Text → Action
save_in fault path (err e) files = (err e, files)
save_in fault path (ok bytes) files = written fault path bytes files

unfoldable pub download_file : Server → Platform → Temp → Text → Text → Action
unfolding http_get_bytes
download_file server platform temp url output_path =
    save_in temp.write_fault output_path (http_get_bytes server platform url)

abbrev pub built : Option Text → Result (Unit {0})
built none = ok tt
built (some e) = err (execution (codes "Failed to build HTTP client: " ++ e))

abbrev pub plan_for : Server → Platform → Option Text → Result ReleasePlan
plan_for server platform none = resolve_release_plan server platform
plan_for server platform (some url) = resolve_direct_download_plan platform url

abbrev pub create_temp_dir : Temp → Result Text
create_temp_dir temp = elim temp.create_fault [ none ↦ ok (temp_path temp) | some e ↦ err (io e) ]

abbrev pub ended : Bool → Text → Text → Result (Unit {0}) × Files → Result Text × Files
ended remove_fault dir version (ok done, files) =
    (ok version, remove_dir_all remove_fault dir files)
ended remove_fault dir version (err e, files) = (err e, files)

-- Download, mode and replacement, and then the directory goes.
unfoldable pub install :
    Server → Platform → Temp → Faults → ReleasePlan → Text → Files → Result Text × Files
unfolding download_file ensure_executable replace_current_binary join
install server platform temp faults plan dir files =
    let download_path = join dir plan.agent_name in
    ended temp.remove_fault dir plan.target_version (
      and_then (download_file server platform temp plan.agent_url download_path files)
        (λ downloaded.
          and_then (ensure_executable faults download_path downloaded)
            (λ executable. replace_current_binary faults download_path executable)))

abbrev pub install_in :
    Server → Platform → Temp → Faults → Result (ReleasePlan × Text) → Files → Result Text × Files
install_in server platform temp faults (err e) files = (err e, files)
install_in server platform temp faults (ok (plan, dir)) files =
    install server platform temp faults plan dir files

unfoldable pub perform_self_update :
    Server → Platform → Temp → Faults → Option Text → Files → Result Text × Files
unfolding install resolve_release_plan resolve_direct_download_plan
perform_self_update server platform temp faults download_url files =
    install_in server platform temp faults
      (built server.build >>= λ client. plan_for server platform download_url >>= λ plan.
        create_temp_dir temp >>= λ dir. ok (plan, dir))
      files
