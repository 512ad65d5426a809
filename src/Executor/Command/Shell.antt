-- ===== src/Executor/Command/Shell.antt =====
-- The shell of a command.
use tasknexus_client_agent.Prelude.{ℕ, false, [], ◌∷◌, ◌≡◌, refl, arith}
use tasknexus_client_agent.Text.{Text, contains, after_last, trim}
use tasknexus_client_agent.Executor.Command.{shell_name_from_path}

pub after_last-clean : (c : ℕ) (t : Text) → contains c (after_last c t) ≡ false
unfolding contains after_last
after_last-clean c [] = refl
after_last-clean c (d ∷ t) = ground (arith, after_last-clean c t)

after_last-keeps : (c d : ℕ) (t : Text) → contains d t ≡ false → contains d (after_last c t) ≡ false
unfolding contains after_last
after_last-keeps c d [] h = refl
after_last-keeps c d (x ∷ t) h = ground (arith, after_last-keeps c d t)

-- The name of a shell has no slash and no backslash in it, so it can match the names that
-- `execute` knows, wherever the shell stands.
pub shell_name_from_path-plain :
    (path : Text)
    → (contains b'/' (shell_name_from_path path) ≡ false)
      × (contains b'\\' (shell_name_from_path path) ≡ false)
unfolding shell_name_from_path
shell_name_from_path-plain path = (
  after_last-keeps b'\\' b'/' (after_last b'/' (trim path)) (after_last-clean b'/' (trim path)),
  after_last-clean b'\\' (after_last b'/' (trim path)),
)
