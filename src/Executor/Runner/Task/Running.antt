-- ===== src/Executor/Runner/Task/Running.antt =====
-- What a run of `run_task` of agent/src/executor.rs does in its directory, with and without a command.
use tasknexus_client_agent.Prelude.{
  pos, int_eq, ◌≡◌, refl, sym, subst, ◌∙◌, Bool, true, false, ◌&&◌, not, Option, none, some, List,
  [], ◌∷◌, ◌++◌, append_assoc, append-nil, if◌then◌else◌, arith, ◌==◌, if-both, is_empty, text_eq,
  eqb_ℤ_iff,
}
use tasknexus_client_agent.Text.{Text, codes, trim}
use tasknexus_client_agent.Client.Message.{InlineCode}
use tasknexus_client_agent.Executor.Process.{
  ExecutionResult, Spawn, Behaviour, result_of, spawn_of, failed_with,
}
use tasknexus_client_agent.Executor.Process.Ending.{result_of-IsClean}
use tasknexus_client_agent.Executor.Script.{to_lowercase, build_inline_code_command}
use tasknexus_client_agent.Executor.Runner.{
  Call, ran, wrote, write_failed, removed_file, remove_failed, System, TaskRunner, Flow, returns,
  goes, Step, pure, after, ◌>>=◌, ◌>>◌, zero_exit, execute, cleanup_workspace_dir_if_needed,
}
use tasknexus_client_agent.Executor.Runner.Calls.{
  removed_dirs, left_files, stuck_files, stuck_files-prepared, halts, removed_dirs-prepared,
  left_files-prepared, without_first_self,
}
use tasknexus_client_agent.Executor.Runner.Steps.{
  Prepared, IsPrepared, Completed, Completes, IsComplete-cleanup, >>=-Completes, returns-Prepared,
  prepared-IsComplete,
}
use tasknexus_client_agent.Executor.Runner.Task.{
  removal, TaskArgs, prepare_repo, repo_name, python_deps, code_command, create_temp_code_file,
  write_file, run_command, run_nothing, run_script, run_by, run_in, task_request, nothing_to_do,
  actual_command, in_code_mode, is_python,
}
use tasknexus_client_agent.Executor.Runner.Task.Preparing.{
  prepare_repo-Prepares, python_deps-Prepares,
}

module _ {V : Type 0} (sys : System V) (runner : TaskRunner) where
  module _ (t : TaskArgs) (dir : Text) where
    -- What is removed if the result is good
    abbrev pub kept : List Text
    kept = if t.cleanup_workspace_on_success then dir ∷ [] else []

    abbrev cleaned_up : ExecutionResult V → Step V (ExecutionResult V)
    cleaned_up r = cleanup_workspace_dir_if_needed dir t.cleanup_workspace_on_success r >> pure r

    run_nothing-after :
        (calls : List Call) (out : Flow V (Unit {0}) × List Call)
        → Prepared sys false calls out
        → Completed sys kept calls (after out (λ _. cleaned_up (nothing_to_do sys runner)))
    run_nothing-after calls (returns r, done) p =
        (p.0, p.1, prepared-IsComplete sys kept r p.0 p.2 p.3)
    run_nothing-after calls (goes a, done) p =
        subst (λ l. Completed sys kept calls (cleaned_up (nothing_to_do sys runner) l)) (sym p.1)
          (IsComplete-cleanup sys dir t.cleanup_workspace_on_success (nothing_to_do sys runner)
            calls p.0 (λ _. refl) p.2.halting
            (left_files-prepared [] p.0 p.2.preparing
              ∙ sym (stuck_files-prepared p.0 p.2.preparing))
            (removed_dirs-prepared p.0 p.2.preparing))

    run_nothing-Completes : Completes sys kept (run_nothing sys runner t dir)
    unfolding run_nothing
    run_nothing-Completes calls =
        run_nothing-after calls _
          (prepare_repo-Prepares sys runner (not t.prepare_repo_before_execute) t dir true calls)

    -- The temporary file of a command was written just before.
    abbrev Written : Option Text → List Call → Type 0
    Written none added = added ≡ []
    Written (some path) added = (text : Text) × (added ≡ wrote path text ∷ [])

    abbrev Ready : List Call → Flow V (Text × Option Text) × List Call → Type 0
    Ready calls (returns r, done) =
        (added : List Call) × (done ≡ calls ++ added)
        × IsPrepared sys false added
        × (zero_exit r ≡ false)
    Ready calls (goes command, done) =
        (added : List Call) × (done ≡ calls ++ added) × Written command.1 added

    abbrev removals : Option Text → Option Text → List Call
    removals fault none = []
    removals fault (some path) = removal fault path ∷ []

    abbrev IsTidy : List Call → Type 0
    IsTidy calls =
        (halts sys calls ≡ true)
        × (left_files [] calls ≡ stuck_files calls)
        × (removed_dirs calls ≡ [])

    Written-calls :
        (fault temp : Option Text) (s : Spawn) (b : Behaviour) (added : List Call)
        → Written temp added
        → IsTidy (added ++ ran s b ∷ removals fault temp)
    unfolding halts left_files removed_dirs stuck_files
    Written-calls fault none s b added w =
        subst (λ l. IsTidy (l ++ ran s b ∷ [])) (sym w) (ground arith, refl, refl)
    Written-calls (some e) (some path) s b added w =
        subst (λ l. IsTidy (l ++ ran s b ∷ remove_failed path ∷ [])) (sym w.1)
          (ground arith, refl, refl)
    Written-calls none (some path) s b added w =
        subst (λ l. IsTidy (l ++ ran s b ∷ removed_file path ∷ [])) (sym w.1)
          (ground arith, without_first_self path [], refl)

    ended-Completed :
        (fault temp : Option Text) (s : Spawn) (b : Behaviour) (calls added : List Call)
        → Written temp added
        → Completed sys kept calls (
            cleaned_up
              (result_of sys.from_str sys.decimal s b)
              (calls ++ (added ++ ran s b ∷ removals fault temp)))
    ended-Completed fault temp s b calls added w =
        let r = result_of sys.from_str sys.decimal s b in
        let whole = Written-calls fault temp s b added w in
        IsComplete-cleanup sys dir t.cleanup_workspace_on_success r calls
          (added ++ ran s b ∷ removals fault temp)
          (λ z.
            let clean =
              result_of-IsClean sys.from_str sys.decimal s b
                ((eqb_ℤ_iff r.exit_code (pos 0)).0 z) in
            rw (z, clean.1, clean.2) refl)
          whole.0 whole.1 whole.2

    run_command-Completed :
        (command : Text) (temp : Option Text) (calls added : List Call)
        → Written temp added
        → Completed sys kept calls
            ((run_command sys runner t dir (command, temp) >>= cleaned_up) (calls ++ added))
    unfolding run_command execute
    run_command-Completed command none calls added w =
        let s = spawn_of runner.default_timeout (task_request sys runner t dir command) in
        let b = sys.behave (calls ++ added) s in
        subst
          (λ l. Completed sys kept calls (cleaned_up (result_of sys.from_str sys.decimal s b) l))
          (sym (append_assoc calls added (ran s b ∷ [])))
          (ended-Completed none none s b calls added w)
    run_command-Completed command (some path) calls added w =
        let s = spawn_of runner.default_timeout (task_request sys runner t dir command) in
        let b = sys.behave (calls ++ added) s in
        let fault = sys.remove_file ((calls ++ added) ++ ran s b ∷ []) path in
        subst
          (λ l. Completed sys kept calls (cleaned_up (result_of sys.from_str sys.decimal s b) l))
          (sym (
            append_assoc (calls ++ added) (ran s b ∷ []) (removal fault path ∷ [])
            ∙ append_assoc calls added (ran s b ∷ removal fault path ∷ [])))
          (ended-Completed fault (some path) s b calls added w)

    run_script-after :
        (calls : List Call) (out : Flow V (Text × Option Text) × List Call)
        → Ready calls out
        → Completed sys kept calls
            (after out (λ command. run_command sys runner t dir command >>= cleaned_up))
    run_script-after calls (returns r, done) p =
        (p.0, p.1, prepared-IsComplete sys kept r p.0 p.2 p.3)
    run_script-after calls (goes command, done) p =
        subst
          (λ l. Completed sys kept calls ((run_command sys runner t dir command >>= cleaned_up) l))
          (sym p.1) (run_command-Completed command.0 command.1 calls p.0 p.2)

    write_file-Ready :
        (e : Option Text) (path content language : Text) (calls : List Call)
        → Ready calls (
            (write_file sys runner e path content >>= λ p.
            pure (build_inline_code_command language p, some p))
              calls)
    unfolding halts
    write_file-Ready none path content language calls =
        (wrote path content ∷ [], refl, (content, refl))
    write_file-Ready (some e) path content language calls = (
      write_failed path ∷ [],
      refl,
      record { preparing = refl; halting = refl; succeeding = λ h. cc },
      refl,
    )

    failed-Ready :
        (message : Text) (calls : List Call) → Ready calls (returns (failed_with message), calls)
    failed-Ready message calls =
        returns-Prepared sys (Text × Option Text) true calls (failed_with message) refl

    code_command-Ready :
        (code : Option InlineCode) (calls : List Call)
        → Ready calls (code_command sys runner code t dir calls)
    unfolding create_temp_code_file
    code_command-Ready none calls =
        failed-Ready (codes "Code mode selected but no code payload provided") calls
    code_command-Ready (some code) calls =
        let language = to_lowercase (trim code.language) in
        if-both (Ready calls) (not (language == codes "shell") && not (language == codes "python"))
          (λ _. failed-Ready (codes "Unsupported code language: " ++ code.language) calls)
          (λ _.
            if-both (Ready calls) (is_empty (trim code.content))
              (λ _. failed-Ready (codes "Code content is empty") calls)
              (λ _. write_file-Ready _ _ code.content language calls))

    actual_command-Ready : (calls : List Call) → Ready calls (actual_command sys runner t dir calls)
    actual_command-Ready calls =
        if-both (Ready calls) (in_code_mode t) (λ _. code_command-Ready t.code calls)
          (λ _. ([], sym (append-nil calls), refl))

    run_script-Completes : Completes sys kept (run_script sys runner t dir)
    unfolding run_script
    run_script-Completes =
        >>=-Completes sys kept
          (python_deps sys runner (if is_python t then repo_name t else none) dir) _
          (python_deps-Prepares sys runner (if is_python t then repo_name t else none) dir)
          (λ _ calls. run_script-after calls _ (actual_command-Ready calls))

    run_by-Completes : (nothing : Bool) → Completes sys kept (run_by sys runner nothing t dir)
    run_by-Completes true calls = run_nothing-Completes calls
    run_by-Completes false calls = run_script-Completes calls

    pub run_in-Completes : Completes sys kept (run_in sys runner t dir)
    unfolding run_in
    run_in-Completes =
        >>=-Completes sys kept (prepare_repo sys runner t.prepare_repo_before_execute t dir false) _
          (prepare_repo-Prepares sys runner t.prepare_repo_before_execute t dir false)
          (λ _. run_by-Completes (not (in_code_mode t) && is_empty t.command))
