-- ===== src/Executor/Runner/Steps.antt =====
-- What each part of a run of agent/src/executor.rs adds to the calls.
use tasknexus_client_agent.Prelude.{
  int_eq, ◌≡◌, refl, sym, ap, ◌∙◌, Bool, true, false, ◌&&◌, not, Option, List, [], ◌∷◌, ◌++◌,
  append_assoc, append-nil, if◌then◌else◌, arith, if-both,
}
use tasknexus_client_agent.Text.{Text, codes}
use tasknexus_client_agent.Executor.Process.{
  ExecutionResult, Request, Spawn, Behaviour, result_of, spawn_of,
}
use tasknexus_client_agent.Executor.Paths.{join}
use tasknexus_client_agent.Executor.Runner.{
  Call, ran, removed_dir, System, TaskRunner, Flow, returns, goes, Step, pure, after, ◌>>=◌,
  zero_exit, result_in, unless_failed, execute, clone_repo, update_repo, ensure_repo_ready,
  ensure_python_deps, clone_request, update_request, pip_request, unless_continue, is_success,
  cleanup_workspace_dir_if_needed, ◌>>◌,
}
use tasknexus_client_agent.Executor.Runner.Calls.{
  all_calls, is_preparation, removed_dirs, left_files, succeeded, halts, halts-succeeded,
  halts-append, removed_dirs-prepared, left_files-prepared, removed_dirs-append, left_files-append,
  stuck_files, stuck_files-append, stuck_files-prepared,
}

module _ {V : Type 0} (sys : System V) where
  -- Calls of a part that prepares: of a strict one that went on, all succeeded.
  pub record IsPrepared (strict : Bool) (added : List Call) : Type 0 where
    pub preparing : all_calls is_preparation added ≡ true
    pub halting : halts sys added ≡ true
    pub succeeding : strict ≡ true → all_calls (succeeded sys) added ≡ true

  abbrev pub Prepared : {A : Type 0} → Bool → List Call → Flow V A × List Call → Type 0
  Prepared strict calls (goes a, done) =
      (added : List Call) × (done ≡ calls ++ added) × IsPrepared strict added
  Prepared strict calls (returns r, done) =
      (added : List Call) × (done ≡ calls ++ added) × IsPrepared false added × (zero_exit r ≡ false)

  abbrev pub Prepares : {A : Type 0} → Bool → Step V A → Type 0
  Prepares strict m = (calls : List Call) → Prepared strict calls (m calls)

  -- A part that ends the run: `kept` is what is removed when the result is good.
  pub record IsComplete (kept : List Text) (r : ExecutionResult V) (added : List Call)
      : Type 0 where
    pub halted : halts sys added ≡ true
    pub tidy : left_files [] added ≡ stuck_files added
    pub cleaned : removed_dirs added ≡ (if zero_exit r then kept else [])

  abbrev pub Completed : List Text → List Call → Flow V (ExecutionResult V) × List Call → Type 0
  Completed kept calls out =
      (added : List Call) × (out.1 ≡ calls ++ added) × IsComplete kept (result_in out.0) added

  abbrev pub Completes : List Text → Step V (ExecutionResult V) → Type 0
  Completes kept m = (calls : List Call) → Completed kept calls (m calls)

  pub prepared-IsComplete :
      (kept : List Text) (r : ExecutionResult V) (added : List Call)
      → IsPrepared false added
      → zero_exit r ≡ false
      → IsComplete kept r added
  unfolding left_files removed_dirs stuck_files
  prepared-IsComplete kept r added p z = record {
    halted = p.halting;
    tidy = left_files-prepared [] added p.preparing ∙ sym (stuck_files-prepared added p.preparing);
    cleaned = rw z (removed_dirs-prepared added p.preparing);
  }

  append-IsComplete :
      (kept : List Text) (r : ExecutionResult V) (xs ys : List Call)
      → IsPrepared true xs
      → IsComplete kept r ys
      → IsComplete kept r (xs ++ ys)
  append-IsComplete kept r xs ys p c = record {
    halted = halts-succeeded sys xs ys (p.succeeding refl) c.halted;
    tidy =
        left_files-append [] xs ys
        ∙ ap (λ l. left_files l ys) (left_files-prepared [] xs p.preparing)
        ∙ c.tidy
        ∙ sym (
            stuck_files-append xs ys
            ∙ ap (λ l. l ++ stuck_files ys) (stuck_files-prepared xs p.preparing));
    cleaned =
        removed_dirs-append xs ys
        ∙ ap (λ l. l ++ removed_dirs ys) (removed_dirs-prepared xs p.preparing)
        ∙ c.cleaned;
  }

  -- A run that goes on from a preparation
  pub extend-Completed :
      (kept : List Text) (calls done added : List Call)
      (out : Flow V (ExecutionResult V) × List Call)
      → done ≡ calls ++ added
      → IsPrepared true added
      → Completed kept done out
      → Completed kept calls out
  extend-Completed kept calls done added out e p k = (
    added ++ k.0,
    k.1 ∙ ap (λ l. l ++ k.0) e ∙ append_assoc calls added k.0,
    append-IsComplete kept _ added k.0 p k.2,
  )

  after-Completed :
      {A : Type 0} (kept : List Text) (rest : A → Step V (ExecutionResult V)) (calls : List Call)
      (out : Flow V A × List Call)
      → Prepared true calls out
      → ((a : A) → Completes kept (rest a))
      → Completed kept calls (after out rest)
  after-Completed kept rest calls (returns r, done) p c =
      (p.0, p.1, prepared-IsComplete kept r p.0 p.2 p.3)
  after-Completed kept rest calls (goes a, done) p c =
      extend-Completed kept calls done p.0 (rest a done) p.1 p.2 (c a done)

  pub IsComplete-cleanup :
      (dir : Text) (wanted : Bool) (r : ExecutionResult V) (calls added : List Call)
      → (zero_exit r ≡ true → is_success r ≡ true)
      → halts sys added ≡ true
      → left_files [] added ≡ stuck_files added
      → removed_dirs added ≡ []
      → Completed
          (if wanted then dir ∷ [] else [])
          calls
          ((cleanup_workspace_dir_if_needed dir wanted r >> pure r) (calls ++ added))
  unfolding left_files removed_dirs stuck_files
  IsComplete-cleanup dir wanted r calls added clean halted tidy cleaned =
      if-both
        (λ (out : Flow V (Unit {0}) × List Call).
          Completed (if wanted then dir ∷ [] else []) calls (after out (λ _. pure r)))
        (wanted && is_success r)
        (λ removes. (
          added ++ removed_dir dir ∷ [],
          append_assoc calls added (removed_dir dir ∷ []),
          record {
            halted = halts-append sys added (removed_dir dir ∷ []) halted refl;
            tidy =
                left_files-append [] added (removed_dir dir ∷ [])
                ∙ tidy
                ∙ sym (
                    stuck_files-append added (removed_dir dir ∷ [])
                    ∙ append-nil (stuck_files added));
            cleaned =
                removed_dirs-append added (removed_dir dir ∷ [])
                ∙ ap (λ l. l ++ dir ∷ []) cleaned
                ∙ ground arith;
          },
        ))
        (λ leaves. (
          added,
          refl,
          record { halted = halted; tidy = tidy; cleaned = cleaned ∙ ground (arith, clean) },
        ))

  pub >>=-Completes :
      {A : Type 0} (kept : List Text) (m : Step V A) (rest : A → Step V (ExecutionResult V))
      → Prepares true m
      → ((a : A) → Completes kept (rest a))
      → Completes kept (m >>= rest)
  >>=-Completes kept m rest p c calls = after-Completed kept rest calls (m calls) (p calls) c

  nothing-IsPrepared : (strict : Bool) → IsPrepared strict []
  unfolding halts
  nothing-IsPrepared strict = record { preparing = refl; halting = refl; succeeding = λ _. refl }

  pub pure-Prepares : {A : Type 0} (strict : Bool) (a : A) → Prepares strict (pure a)
  pure-Prepares strict a calls = ([], sym (append-nil calls), nothing-IsPrepared strict)

  -- A part that adds nothing and returns
  pub returns-Prepared :
      (A : Type 0) (strict : Bool) (calls : List Call) (r : ExecutionResult V)
      → zero_exit r ≡ false
      → Prepared {A = A} strict calls (returns r, calls)
  returns-Prepared A strict calls r z = ([], sym (append-nil calls), nothing-IsPrepared false, z)

  weaken-Prepared :
      {A : Type 0} (strict : Bool) (calls : List Call) (out : Flow V A × List Call)
      → Prepared true calls out
      → Prepared strict calls out
  weaken-Prepared strict calls (returns r, done) p = p
  weaken-Prepared strict calls (goes a, done) p = (
    p.0,
    p.1,
    record {
      preparing = p.2.preparing;
      halting = p.2.halting;
      succeeding = λ _. p.2.succeeding refl;
    },
  )

  module _ (runner : TaskRunner) where
    ran-IsPrepared :
        (strict : Bool) (s : Spawn) (b : Behaviour)
        → (strict ≡ true → zero_exit (result_of sys.from_str sys.decimal s b) ≡ true)
        → IsPrepared strict (ran s b ∷ [])
    unfolding halts
    ran-IsPrepared strict s b h = record {
      preparing = refl;
      halting = ground arith;
      succeeding = λ e. rw (h e) refl;
    }

    -- A command whose failure ends the run
    execute-Prepares :
        (request : Request) → Prepares true (execute sys runner request >>= unless_failed)
    unfolding execute
    execute-Prepares request calls =
        let s = spawn_of runner.default_timeout request in
        let b = sys.behave calls s in
        if-both (Prepared true calls) (zero_exit (result_of sys.from_str sys.decimal s b))
          (λ yes_. (ran s b ∷ [], refl, ran-IsPrepared true s b (λ _. yes_)))
          (λ no_. (ran s b ∷ [], refl, ran-IsPrepared false s b (λ e. cc), no_))

    execute_and_continue-Prepares :
        (continue : Bool) (request : Request)
        → Prepares
            (not continue)
            (execute sys runner request >>= unless_continue sys runner continue)
    unfolding execute
    execute_and_continue-Prepares false request calls = execute-Prepares request calls
    execute_and_continue-Prepares true request calls =
        let s = spawn_of runner.default_timeout request in
        let b = sys.behave calls s in (ran s b ∷ [], refl, ran-IsPrepared false s b (λ e. cc))

    -- A repository whose update may fail is not strict.
    pub ensure_repo_ready-Prepares :
        (dir name url ref : Text) (token : Option Text) (continue : Bool)
        → Prepares (not continue) (ensure_repo_ready sys runner dir name url ref token continue)
    unfolding ensure_repo_ready clone_repo update_repo
    ensure_repo_ready-Prepares dir name url ref token continue calls =
        let path = join dir name in
        if-both (Prepared (not continue) calls) (not (sys.exists calls path))
          (λ _.
            weaken-Prepared (not continue) calls _
              (execute-Prepares (clone_request sys runner url path ref token) calls))
          (λ _.
            execute_and_continue-Prepares continue (update_request sys runner url path ref token)
              calls)

    pub ensure_python_deps-Prepares :
        (repo_dir : Text) → Prepares true (ensure_python_deps sys runner repo_dir)
    unfolding ensure_python_deps
    ensure_python_deps-Prepares repo_dir calls =
        if-both (Prepared true calls)
          (not (sys.exists calls (join repo_dir (codes "requirements.txt"))))
          (λ _. pure-Prepares true tt calls)
          (λ _. execute-Prepares (pip_request sys runner repo_dir) calls)
