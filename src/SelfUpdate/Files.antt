-- ===== src/SelfUpdate/Files.antt =====
-- The files that agent/src/self_update.rs works on, and how `replace_current_binary` and
-- `cleanup_previous_update` change them.
use tasknexus_client_agent.Prelude.{
  Option, none, some, [], ◌++◌, if◌then◌else◌, is_empty, is_some, or_else, Map, get, insert, remove,
  contains_key, text_eq, ◌⊎◌, inl, inr,
}
use tasknexus_client_agent.Text.{Text, codes}
use tasknexus_client_agent.Error.{io, execution, Result, ok, err}
use tasknexus_client_agent.Executor.Paths.{join, parent, file_name}

-- The contents of the files, by their paths.
abbrev pub Files : Type 0
Files = Map Text Text

-- How the calls of the file system end, where an error is its text. A copy that fails may leave
-- anything in the target; `not_found` is the error of a path where nothing is.
pub record Faults : Type 0 where
  pub current_exe : Text ⊎ Text
  pub remove_fault : Text → Option Text
  pub copy_fault : Option (Text × Option Text)
  pub permission_fault : Text → Option Text
  pub backup_fault : Option Text
  pub final_fault : Option Text
  pub restore_fault : Option Text
  pub not_found : Text

-- An action on the files, which may fail.
abbrev pub Action : Type 0
Action = Files → Result (Unit {0}) × Files

abbrev pub and_then : Result (Unit {0}) × Files → Action → Result (Unit {0}) × Files
and_then (ok done, files) rest = rest files
and_then (err e, files) rest = (err e, files)

abbrev pub put : Text → Option Text → Files → Files
put path none files = remove path files
put path (some content) files = insert path content files

-- `remove_file`, whose error is ignored
abbrev pub remove_file : Faults → Text → Files → Files
remove_file faults path files =
    if is_some (faults.remove_fault path) then files else remove path files

abbrev pub moved : Text → Option Text → Text → Text → Files → (Text ⊎ Unit {0}) × Files
moved missing none source target files = (inl missing, files)
moved missing (some content) source target files =
    (inr tt, insert target content (remove source files))

abbrev pub rename : Faults → Option Text → Text → Text → Files → (Text ⊎ Unit {0}) × Files
rename faults (some e) source target files = (inl e, files)
rename faults none source target files =
    moved faults.not_found (get source files) source target files

abbrev pub copied :
    Text → Option Text → Option (Text × Option Text) → Text → Files → (Text ⊎ Unit {0}) × Files
copied missing none fault target files = (inl missing, files)
copied missing (some content) none target files = (inr tt, insert target content files)
copied missing (some content) (some fault) target files = (inl fault.0, put target fault.1 files)

abbrev pub copy : Faults → Text → Text → Files → (Text ⊎ Unit {0}) × Files
copy faults source target files =
    copied faults.not_found (get source files) faults.copy_fault target files

abbrev pub map_err : (Text → Text) → (Text ⊎ Unit {0}) × Files → Result (Unit {0}) × Files
map_err message (inl e, files) = (err (execution (message e)), files)
map_err message (inr done, files) = (ok tt, files)

-- `ensure_executable`, on Unix; the mode of a file is left out.
unfoldable pub ensure_executable : Faults → Text → Action
ensure_executable faults path files =
    if contains_key path files
    then elim (faults.permission_fault path) [
      | none ↦ (ok tt, files)
      | some e ↦ (err (io e), files)
    ]
    else (err (io faults.not_found), files)

abbrev pub stage : Faults → Text → Text → Action
stage faults new_binary staged files =
    map_err (λ e. codes "Failed to stage new binary to '" ++ (staged ++ (codes "': " ++ e)))
      (copy faults new_binary staged files)

abbrev pub back_up : Faults → Text → Text → Action
back_up faults current_exe backup files =
    map_err
      (λ e.
        codes "Failed to rename current executable to backup '" ++ (backup ++ (codes "': " ++ e)))
      (rename faults faults.backup_fault current_exe backup files)

-- A failure of the last rename renames the backup back, whose error is ignored.
abbrev pub or_restore : Faults → Text → Text → (Text ⊎ Unit {0}) × Files → Result (Unit {0}) × Files
or_restore faults current_exe backup (inr done, files) = (ok tt, files)
or_restore faults current_exe backup (inl e, files) = (
  err (
      execution
        (codes "Failed to rename staged binary to '" ++ (current_exe ++ (codes "': " ++ e)))),
  (rename faults faults.restore_fault backup current_exe files).1,
)

abbrev pub finalize : Faults → Text → Text → Text → Action
finalize faults staged backup current_exe files =
    or_restore faults current_exe backup (rename faults faults.final_fault staged current_exe files)

unfoldable pub replace_at : Faults → Text → Text → Text → Text → Action
unfolding ensure_executable
replace_at faults new_binary current_exe staged backup files =
    let cleared = remove_file faults backup (remove_file faults staged files) in
    and_then (stage faults new_binary staged cleared) (λ copied_to.
      and_then (ensure_executable faults staged copied_to) (λ executable.
        and_then (back_up faults current_exe backup executable)
          (λ backed_up. finalize faults staged backup current_exe backed_up)))

abbrev pub replace_in : Faults → Text → Text → Option Text → Option Text → Action
replace_in faults new_binary current_exe none name files =
    (err (execution (codes "Current executable has no parent directory")), files)
replace_in faults new_binary current_exe (some dir) none files =
    (err (execution (codes "Current executable has no file name")), files)
replace_in faults new_binary current_exe (some dir) (some name) files =
    replace_at faults new_binary current_exe (join dir (name ++ codes ".new"))
      (join dir (name ++ codes ".bak")) files

abbrev pub replace_from : Faults → Text → Text ⊎ Text → Action
replace_from faults new_binary (inl e) files =
    (err (execution (codes "Failed to resolve current executable path: " ++ e)), files)
replace_from faults new_binary (inr current_exe) files =
    replace_in faults new_binary current_exe (parent current_exe) (file_name current_exe) files

unfoldable pub replace_current_binary : Faults → Text → Action
unfolding replace_at parent file_name join
replace_current_binary faults new_binary files =
    replace_from faults new_binary faults.current_exe files

abbrev pub remove_existing : Faults → Text → Files → Files
remove_existing faults path files =
    if contains_key path files then remove_file faults path files else files

abbrev pub remove_backup : Faults → Text → Option Text → Files → Files
remove_backup faults name none files = files
remove_backup faults name (some dir) files =
    remove_existing faults (join dir (name ++ codes ".bak")) files

abbrev pub cleanup_from : Faults → Text ⊎ Text → Files → Files
cleanup_from faults (inl e) files = files
cleanup_from faults (inr current_exe) files =
    let name = or_else (file_name current_exe) [] in
    if is_empty name then files else remove_backup faults name (parent current_exe) files

unfoldable pub cleanup_previous_update : Faults → Files → Files
unfolding parent file_name join
cleanup_previous_update faults files = cleanup_from faults faults.current_exe files
