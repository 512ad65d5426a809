-- ===== src/Tests/Services.antt =====
-- The service, the agent's log and its fetching at concrete inputs.
use tasknexus_client_agent.Executor.Script.{ends_with}
use tasknexus_client_agent.Prelude.{
  ◌&&◌, pos, ◌≡◌, ◌≢◌, refl, true, false, false≢true, none, some, [], ◌∷◌, ◌++◌, if◌then◌else◌,
  text_eq, text_beq_iff, get, inl, inr, drop, arith,
}
use tasknexus_client_agent.Text.{starts_with, Text, codes, contains, strip_prefix}
use tasknexus_client_agent.Utf8.{Bytes, encode, encode_char}
use tasknexus_client_agent.Client.Fetch.{offset_of, is_truncated, log_content}
use tasknexus_client_agent.Client.Fetch.Tail.{log_content-lines}
use tasknexus_client_agent.AgentLog.{Dir, Disk, RotatingAgentLog, rotate_if_needed}
use tasknexus_client_agent.AgentLog.Archives.{after_archive, rotate_if_needed-archives}
use tasknexus_client_agent.Service.{
  Host, World, install, unit_file_path, run_systemctl, install_service, handle_service_command,
}
use tasknexus_client_agent.Service.Instances.{
  name_in, IsInstalled, handle_service_command-instances, handle_service_command-IsInstalled,
}

-- Two lines, of which seven bytes are asked for: they begin within a character.
abbrev log_bytes : Bytes
log_bytes = encode (0x20ac ∷ 0x20ac ∷ 10 ∷ 97 ∷ 0x20ac ∷ [])

cut_there : drop (offset_of 7 log_bytes) log_bytes ≡ (
    if is_truncated 7 log_bytes
    then (0x82 ∷ 0xac ∷ []) ++ 10 ∷ encode (97 ∷ 0x20ac ∷ [])
    else encode (97 ∷ 0x20ac ∷ []))
unfolding encode encode_char
cut_there = refl

no_line_feed : contains 10 (0x82 ∷ 0xac ∷ []) ≡ false
unfolding contains
no_line_feed = refl

log_content-lines_example : log_content 7 log_bytes ≡ 97 ∷ 0x20ac ∷ []
log_content-lines_example =
    log_content-lines 7 log_bytes (0x82 ∷ 0xac ∷ []) (97 ∷ 0x20ac ∷ [])
      (inl (omega arith), (inl (omega arith), tt)) no_line_feed cut_there

abbrev log_disk : Disk
log_disk = record {
  listed = true;
  removable = λ name. true;
  renames = true;
  open_error = none;
  write_error = none;
  stamp = codes "2";
  now = 90000;
}

abbrev agent_log : RotatingAgentLog
agent_log = record {
  file_name = codes "a.log";
  stem = codes "a";
  ext = codes "log";
  file = codes "a.log";
  created_at = 5;
  max_age = 86400;
}

abbrev log_dir : Dir
log_dir = (codes "a_1.log", codes "older") ∷ (codes "a.log", codes "old") ∷ []

not_archive :
    (starts_with (codes "a_") (codes "a.log") && ends_with (codes ".log") (codes "a.log")) ≡ false
unfolding strip_prefix
not_archive = refl

log_found : get (codes "a.log") log_dir ≡ some (codes "old")
unfolding get
log_found = refl

rotate_if_needed-archives_example :
    let r = rotate_if_needed log_disk agent_log log_dir in
    (r.0.file ≡ codes "a.log")
    × (r.0.created_at ≡ 90000)
    × ((k : Text)
        → get k r.1
          ≡ after_archive log_disk
              (codes "a")
              (codes "log")
              (codes "a.log")
              (codes "old")
              log_dir
              k)
rotate_if_needed-archives_example =
    rotate_if_needed-archives log_disk agent_log log_dir (codes "old") refl refl refl refl
      not_archive log_found

abbrev host : Host
host = record {
  systemctl = λ calls args. inr (record { success = true; code = some (pos 0); stderr = [] });
  current_exe = inr (codes "/b/a");
  canonicalize = λ path. inr path;
  exists = λ path. true;
  write_fault = none;
  remove_fault = none;
  debug = λ args. [];
  integer = λ z. [];
}

abbrev world : World
world = record { units = (unit_file_path (codes "other"), codes "unit") ∷ []; calls = [] }

other_instance : name_in (install (codes "/c") (codes "tasknexus")) ≢ codes "other"
other_instance e = false≢true ((text_beq_iff (codes "tasknexus") (codes "other")).1 e)

handle_service_command-instances_example :
    get
      (unit_file_path (codes "other"))
      (handle_service_command host (install (codes "/c") (codes "tasknexus")) world).1.units
    ≡ get (unit_file_path (codes "other")) world.units
handle_service_command-instances_example =
    handle_service_command-instances host (install (codes "/c") (codes "tasknexus")) (codes "other")
      world other_instance

installs : (handle_service_command host (install (codes "/c") (codes "tasknexus")) world).0 ≡ 0
unfolding handle_service_command install_service run_systemctl
installs = refl

handle_service_command-IsInstalled_example :
    IsInstalled host
      (inr (codes "/b/a"))
      (inr (codes "/c"))
      (codes "tasknexus")
      (handle_service_command host (install (codes "/c") (codes "tasknexus")) world).1
handle_service_command-IsInstalled_example =
    handle_service_command-IsInstalled host (codes "tasknexus") (codes "/c") world installs
