-- ===== src/Executor/Runner/Clone.antt =====
-- Where agent/src/executor.rs clones a repository to, and where it updates one.
use tasknexus_client_agent.Prelude.{
  ◌≡◌, refl, ap, Bool, true, false, int_eq, Option, some, or_else, List, [], ◌∷◌, ◌++◌, if-both,
  text_eq, ◌==◌,
}
use tasknexus_client_agent.Text.{Text, codes}
use tasknexus_client_agent.Executor.Process.{ExecutionResult, Spawn, Behaviour, Request, spawn_of}
use tasknexus_client_agent.Executor.Command.{
  inject_token_into_url, shell_args, shell_name_from_path, resolve_shell_path,
}
use tasknexus_client_agent.Executor.Paths.{join, is_skipped}
use tasknexus_client_agent.Executor.Paths.Join.{IsDir, IsName, file_name-join, parent-join}
use tasknexus_client_agent.Executor.Script.{repo_name_of}
use tasknexus_client_agent.Executor.Script.Repo.{repo_name_of-plain}
use tasknexus_client_agent.Executor.Runner.{
  Call, ran, System, TaskRunner, Flow, Step, execute, unless_failed, unless_continue, zero_exit,
  ◌>>=◌, clone_request, update_request, clone_repo, update_repo, ensure_repo_ready,
}

module _ {V : Type 0} (sys : System V) (runner : TaskRunner) where
  -- The one call that was made is a shell in a directory, whose last argument is a command.
  abbrev pub Runs : List Call → Text → Text → List Call → Type 0
  Runs calls dir command done =
      (s : Spawn) × (b : Behaviour) × (shell : List Text) × (done ≡ calls ++ ran s b ∷ [])
      × (s.current_dir ≡ some dir)
      × (s.args ≡ shell ++ command ∷ [])

  unless_failed-calls :
      (r : ExecutionResult V) (calls : List Call) → (unless_failed r calls).1 ≡ calls
  unless_failed-calls r calls =
      if-both (λ (out : Flow V (Unit {0}) × List Call). out.1 ≡ calls) (zero_exit r) (λ _. refl)
        (λ _. refl)

  unless_continue-calls :
      (continue : Bool) (r : ExecutionResult V) (calls : List Call)
      → (unless_continue sys runner continue r calls).1 ≡ calls
  unless_continue-calls true r calls = refl
  unless_continue-calls false r calls = unless_failed-calls r calls

  executed-Runs :
      (request : Request) (dir command : Text) (rest : ExecutionResult V → Step V (Unit {0}))
      (calls : List Call)
      → request.working_dir ≡ some dir
      → request.command ≡ command
      → ((r : ExecutionResult V) (l : List Call) → (rest r l).1 ≡ l)
      → Runs calls dir command ((execute sys runner request >>= rest) calls).1
  unfolding execute spawn_of
  executed-Runs request dir command rest calls at is keeps = (
    spawn_of runner.default_timeout request,
    sys.behave calls (spawn_of runner.default_timeout request),
    (shell_args (shell_name_from_path (resolve_shell_path request.environment))),
    keeps _ _,
    at,
    ap (λ c. (shell_args (shell_name_from_path (resolve_shell_path request.environment))) ++ c ∷ [])
        is,
  )

  -- Of a workspace whose directory is absolute and not the root, and a repository whose name is not
  -- empty, `.` or `..`: where there is nothing under that name in the directory, the one command that
  -- `ensure_repo_ready` runs is a `git clone`, run in the directory, into that name; else it is a
  -- `git fetch` with a `git reset` to what was fetched, run in the repository.
  pub ensure_repo_ready-place :
      (dir url ref : Text) (token : Option Text) (continue : Bool) (calls : List Call)
      → IsDir dir
      → is_skipped (repo_name_of url) ≡ false
      → (repo_name_of url == codes "..") ≡ false
      → let name = repo_name_of url in
        let address = inject_token_into_url url token in
        let done = (ensure_repo_ready sys runner dir name url ref token continue calls).1 in
        (sys.exists calls (join dir name) ≡ false
          → Runs calls dir
              (codes "git clone --progress --depth 1 --branch "
                ++ (ref ++ (codes " " ++ (address ++ (codes " " ++ name)))))
              done)
        × (sys.exists calls (join dir name) ≡ true
            → Runs calls
                (join dir name)
                (codes "git fetch "
                  ++ (address ++ (codes " " ++ (ref ++ codes " && git reset --hard FETCH_HEAD"))))
                done)
  unfolding ensure_repo_ready clone_repo update_repo
  ensure_repo_ready-place dir url ref token continue calls d kept below =
      let name = repo_name_of url in
      let n : IsName name = record {
        segment = (repo_name_of-plain url).0;
        kept = kept;
        below = below;
      } in
      (
        λ absent. rw absent (
            executed-Runs (clone_request sys runner url (join dir name) ref token) dir _
              unless_failed calls (parent-join dir name d n)
              (ap
                (λ o.
                  codes "git clone --progress --depth 1 --branch "
                  ++ (ref
                      ++ (codes " "
                          ++ (inject_token_into_url url token
                              ++ (codes " " ++ or_else o (codes "repo"))))))
                (file_name-join dir name d n))
              unless_failed-calls),
        λ present. rw present (
            executed-Runs (update_request sys runner url (join dir name) ref token) (join dir name)
              _ (unless_continue sys runner continue) calls refl refl
              (unless_continue-calls continue)),
      )
