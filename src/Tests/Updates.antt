-- ===== src/Tests/Updates.antt =====
-- Self-updates and state syncs at concrete inputs.
use tasknexus_client_agent.Prelude.{
  ◌≡◌, refl, true, false, none, some, [], ◌∷◌, ◌++◌, text_eq, get, inr,
}
use tasknexus_client_agent.Text.{Text, codes, strip_prefix, contains, after_last, split_once}
use tasknexus_client_agent.Error.{ok}
use tasknexus_client_agent.Executor.Paths.{join, split}
use tasknexus_client_agent.Executor.Paths.Join.{IsDir, IsName}
use tasknexus_client_agent.SelfUpdate.Files.{Files, Faults}
use tasknexus_client_agent.SelfUpdate.Release.{
  Server, Platform, ReleasePlan, http_get_bytes, resolve_direct_download_plan, direct_name,
}
use tasknexus_client_agent.SelfUpdate.Perform.{
  Temp, temp_path, is_below, plan_for, perform_self_update,
}
use tasknexus_client_agent.SelfUpdate.Perform.Safe.{
  Installed, IsBeside, perform_self_update-Installed,
}

abbrev bin_dir : Text
bin_dir = codes "/b"

abbrev faults : Faults
faults = record {
  current_exe = inr (codes "/b/a");
  remove_fault = λ path. none;
  copy_fault = none;
  permission_fault = λ path. none;
  backup_fault = none;
  final_fault = some (codes "busy");
  restore_fault = none;
  not_found = codes "missing";
}

abbrev files : Files
files = (codes "/b/a", codes "old") ∷ (codes "/b/a.bak", codes "older") ∷ []

abbrev server : Server
server = record {
  build = none;
  send = λ request.
      inr (record { status = 200; status_line = codes "200 OK"; body = inr (codes "new") });
  from_str = λ text. inr (record {
    tag_name = codes " v2 ";
    assets =
        record {
          name = codes "tasknexus-agent-linux-amd64";
          browser_download_url = codes "https://h/v2";
        }
        ∷ [];
  });
}

abbrev platform : Platform
platform = record {
  release_api = none;
  github_token = none;
  os = codes "linux";
  arch = codes "x86_64";
}

abbrev temp : Temp
temp = record {
  temp_dir = codes "/t";
  process_id = codes "1";
  as_millis = codes "2";
  create_fault = none;
  write_fault = none;
  remove_fault = false;
}

b_dir : IsDir (codes "/b")
unfolding split
b_dir = record {
  rest = codes "b" ∷ [];
  parts = refl;
  nonempty = refl;
  trimmed = refl;
  open_end = refl;
}

a_name : IsName (codes "a")
unfolding contains
a_name = record { segment = refl; kept = refl; below = refl }

at_exe : faults.current_exe ≡ inr (join (codes "/b") (codes "a"))
unfolding join strip_prefix
at_exe = refl

exe_known : get (join (codes "/b") (codes "a")) files ≡ some (codes "old")
unfolding join strip_prefix get
exe_known = refl

beside :
    IsBeside server platform temp faults
      (codes "/b")
      (codes "a")
      b_dir
      a_name
      (codes "old")
      at_exe
      (temp_path temp)
unfolding join strip_prefix
beside = record { exe_beside = refl; staged_beside = refl; backup_beside = refl }

abbrev plan : ReleasePlan
plan = record {
  target_version = codes "direct-download";
  agent_name = codes "v2";
  agent_url = codes "https://h/v2";
}

planned : plan_for server platform (some (codes "https://h/v2")) ≡ ok plan
unfolding resolve_direct_download_plan direct_name after_last contains split_once strip_prefix
planned = refl

inside : is_below (temp_path temp) (join (temp_path temp) plan.agent_name) ≡ true
unfolding join strip_prefix
inside = refl

perform_self_update-Installed_example :
    Installed
      (join (codes "/b") (codes "a"))
      (join (codes "/b") (codes "a" ++ codes ".bak"))
      (codes "old")
      (http_get_bytes server platform (codes "https://h/v2"))
      faults
      (perform_self_update server platform temp faults (some (codes "https://h/v2")) files)
perform_self_update-Installed_example =
    perform_self_update-Installed server platform temp faults (codes "/b") (codes "a") b_dir a_name
      (codes "old") at_exe (some (codes "https://h/v2")) plan files planned inside beside exe_known

abbrev latest : ReleasePlan
latest = record {
  target_version = codes "v2";
  agent_name = codes "tasknexus-agent-linux-amd64";
  agent_url = codes "https://h/v2";
}
