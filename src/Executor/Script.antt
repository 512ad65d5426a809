-- ===== src/Executor/Script.antt =====
-- The commands that `TaskRunner` of agent/src/executor.rs puts together, not on Windows.
pub mod Repo
use tasknexus_client_agent.Prelude.{
  ℕ, zero, suc, ◌+◌, Bool, true, false, ◌&&◌, Option, none, some, List, [], ◌∷◌, ◌++◌, map, eqb,
  leb, if◌then◌else◌, is_empty, is_some, length, text_eq, ◌==◌,
}
use tasknexus_client_agent.Text.{Text, codes, after_last}

abbrev pub lower : ℕ → ℕ
lower c = if leb b'A' c && leb c b'Z' then c + 32 else c

-- `to_ascii_lowercase`. For the languages it serves as `to_lowercase` too: they are only compared with
-- `shell` and `python`, and no other character has a lower case with one of these letters.
unfoldable pub to_lowercase : Text → Text
to_lowercase t = map lower t

unfoldable pub eq_ignore_ascii_case : Text → Text → Bool
unfolding to_lowercase
eq_ignore_ascii_case s t = to_lowercase s == to_lowercase t

abbrev pub under : ℕ → Option Text → Option Text
under c none = none
under c (some t) = some (c ∷ t)

-- `strip_suffix`
unfoldable pub strip_suffix : Text → Text → Option Text
strip_suffix p [] = if is_empty p then some [] else none
strip_suffix p (c ∷ t) =
    let rest = strip_suffix p t in if (c ∷ t) == p then some [] else under c rest

abbrev pub ends_with : Text → Text → Bool
ends_with p t = is_some (strip_suffix p t)

abbrev pub trim_again : (Text → Text) → Option Text → Text → Text
trim_again again none t = t
trim_again again (some rest) t = again rest

-- `trim_end_matches(p)`, on fuel
unfoldable pub trim_matches : ℕ → Text → Text → Text
unfolding strip_suffix
trim_matches zero p t = t
trim_matches (suc fuel) p t = trim_again (λ rest. trim_matches fuel p rest) (strip_suffix p t) t

unfoldable pub trim_end_matches : Text → Text → Text
unfolding trim_matches
trim_end_matches p t = trim_matches (length t) p t

abbrev pub underscore : ℕ → ℕ
underscore c = if eqb c b'-' then b'_' else c

-- The name of a repository: the last segment of its address.
unfoldable pub repo_name_of : Text → Text
unfolding trim_end_matches
repo_name_of url =
    map underscore
      (trim_end_matches (codes ".git") (after_last b'/' (trim_end_matches (codes "/") url)))

unfoldable pub build_python_command : Text → Text
build_python_command script_path =
    codes "if command -v python3 >/dev/null 2>&1; then python3 "
    ++ (script_path ++ (codes "; else python " ++ (script_path ++ codes "; fi")))

unfoldable pub build_pip_install_command : Text → Text
build_pip_install_command requirements_file =
    codes "if command -v pip3 >/dev/null 2>&1; then pip3 install -r "
    ++ (requirements_file
        ++ (codes "; else pip install -r " ++ (requirements_file ++ codes "; fi")))

abbrev pub by_extension : Text → Text → Text
by_extension ext script_path =
    if ext == codes "py"
    then build_python_command script_path
    else if ext == codes "sh"
    then codes "bash " ++ script_path
    else if ext == codes "js"
    then codes "node " ++ script_path
    else if ext == codes "ts"
    then codes "npx ts-node " ++ script_path
    else if ext == codes "rb"
    then codes "ruby " ++ script_path
    else script_path

unfoldable pub build_script_command : Text → Text
build_script_command script_path = by_extension (after_last b'.' script_path) script_path

unfoldable pub build_inline_code_command : Text → Text → Text
unfolding build_python_command
build_inline_code_command language script_path =
    if language == codes "python"
    then build_python_command script_path
    else codes "bash " ++ script_path

-- The arguments of git.
abbrev pub clone_command : Text → Text → Text → Text
clone_command ref_name auth_url repo_name =
    codes "git clone --progress --depth 1 --branch "
    ++ (ref_name ++ (codes " " ++ (auth_url ++ (codes " " ++ repo_name))))

abbrev pub update_command : Text → Text → Text
update_command auth_url ref_name =
    codes "git fetch "
    ++ (auth_url ++ (codes " " ++ (ref_name ++ codes " && git reset --hard FETCH_HEAD")))
