-- ===== src/Executor/Command.antt =====
-- The command lines that agent/src/executor.rs puts together, on Linux.
pub mod Shell
pub mod Token
use tasknexus_client_agent.Prelude.{
  Bool, true, false, ◌||◌, Option, none, some, List, [], ◌∷◌, ◌++◌, if◌then◌else◌, is_empty,
  text_eq, ◌==◌, or_else, Map, get,
}
use tasknexus_client_agent.Text.{Text, codes, strip_prefix, after_last, trim}

abbrev pub default_shell_path : Text
default_shell_path = codes "/bin/bash"

unfoldable pub shell_name_from_path : Text → Text
shell_name_from_path shell_path = after_last b'\\' (after_last b'/' (trim shell_path))

-- The trimmed value, unless it is empty.
abbrev pub chosen_shell : Option Text → Text
chosen_shell none = default_shell_path
chosen_shell (some value) = if is_empty (trim value) then default_shell_path else trim value

abbrev pub shell_variable : Option (Map Text Text) → Option Text
shell_variable none = none
shell_variable (some env) = get (codes "SHELL") env

unfoldable pub resolve_shell_path : Option (Map Text Text) → Text
resolve_shell_path environment = chosen_shell (shell_variable environment)

-- The arguments before the command.
unfoldable pub shell_args : Text → List Text
shell_args name =
    if (name == codes "zsh") || (name == codes "bash")
    then codes "-l" ∷ codes "-c" ∷ []
    else if name == codes "sh"
    then codes "-c" ∷ []
    else if (name == codes "cmd") || (name == codes "cmd.exe")
    then codes "/S" ∷ codes "/C" ∷ []
    else if (name == codes "powershell")
        || ((name == codes "powershell.exe")
            || ((name == codes "pwsh") || (name == codes "pwsh.exe")))
    then codes "-Command" ∷ []
    else codes "-c" ∷ []

abbrev pub with_token : Option Text → Option Text → Text → Text → Text
with_token (some rest) other token repo_url =
    codes "https://oauth2:" ++ (token ++ (codes "@" ++ rest))
with_token none (some rest) token repo_url =
    codes "http://oauth2:" ++ (token ++ (codes "@" ++ rest))
with_token none none token repo_url = repo_url

unfoldable pub inject_token_into_url : Text → Option Text → Text
inject_token_into_url repo_url none = repo_url
inject_token_into_url repo_url (some []) = repo_url
inject_token_into_url repo_url (some (c ∷ token)) =
    with_token (strip_prefix (codes "https://") repo_url) (strip_prefix (codes "http://") repo_url)
      (c ∷ token) repo_url
