-- ===== src/Executor/Runner/Task/Variables.antt =====
-- The variables of a task's process, from agent/src/executor.rs.
use tasknexus_client_agent.Prelude.{
  ◌≡◌, refl, ap, ◌∙◌, Bool, true, false, Option, none, some, [], ◌∷◌, if◌then◌else◌, arith, Map,
  get, get-insert, insert, text_eq, text_beq_iff, ◌==◌,
}
use tasknexus_client_agent.Text.{Text, codes}
use tasknexus_client_agent.Executor.Process.{spawn_of, first_of, variable_in}
use tasknexus_client_agent.Executor.Process.Ending.{get-passed_env, found}
use tasknexus_client_agent.Executor.Runner.{System, TaskRunner}
use tasknexus_client_agent.Executor.Runner.Task.{
  TaskArgs, extend, extend_by, task_env, task_request,
}

-- A map has one entry for each key.
abbrev pub IsMap : Map Text Text → Type 0
IsMap [] = Unit {0}
IsMap ((key, value) ∷ m) = (get key m ≡ none) × IsMap m

abbrev pub IsMapOrNone : Option (Map Text Text) → Type 0
IsMapOrNone none = Unit {0}
IsMapOrNone (some m) = IsMap m

first_of-first_of : (a b c : Option Text) → first_of (first_of a b) c ≡ first_of a (first_of b c)
first_of-first_of none b c = refl
first_of-first_of (some value) b c = refl

shell_or :
    (shell : Bool) (o inherited : Option Text)
    → first_of (if shell then none else o) inherited
      ≡ (if shell then inherited else first_of o inherited)
shell_or true o inherited = refl
shell_or false o inherited = refl

get-extend :
    (key : Text) (env m : Map Text Text)
    → IsMap env
    → get key (extend env m) ≡ first_of (get key env) (get key m)
unfolding extend get
get-extend key [] m h = refl
get-extend key ((k, v) ∷ env) m h =
    ground (arith, text_beq_iff k key, get-extend key env (insert k v m) h.1, get-insert k key v m)

get-extend_by :
    (key : Text) (env : Option (Map Text Text)) (m : Map Text Text)
    → IsMapOrNone env
    → get key (extend_by env m) ≡ first_of (found key env) (get key m)
get-extend_by key none m h = refl
get-extend_by key (some env) m h = get-extend key env m h

module _ {V : Type 0} (sys : System V) (runner : TaskRunner) where
  abbrev pub own_variable : TaskArgs → Text → Option Text
  own_variable t key =
      if codes "TASKNEXUS_WORKSPACE" == key
      then some t.workspace_name
      else if codes "TASKNEXUS_TASK_ID" == key
      then some (sys.integer t.task_id)
      else get key runner.base_env

  -- Of a task whose environment has one value for each variable: `SHELL` is what the agent's own
  -- process has, whatever the task and the configuration say; any other variable of the task's process
  -- has the value that the task gives it, or else the workspace's name and the task's number under the
  -- agent's two names, or else the value of the configured proxies, or else the inherited one.
  pub get-task_env :
      (t : TaskArgs) (dir command key : Text) (inherited : Map Text Text)
      → IsMapOrNone t.environment
      → variable_in inherited
          (spawn_of runner.default_timeout (task_request sys runner t dir command))
          key
        ≡ (if codes "SHELL" == key
            then get key inherited
            else first_of
                (found key t.environment)
                (first_of (own_variable t key) (get key inherited)))
  unfolding task_env spawn_of
  get-task_env t dir command key inherited h =
      ap (λ o. first_of o (get key inherited))
        (get-passed_env key (some (task_env sys runner t))
          ∙ ap (λ o. if codes "SHELL" == key then none else o) inner)
      ∙ shell_or (codes "SHELL" == key) _ (get key inherited)
      ∙ ap (λ o. if codes "SHELL" == key then get key inherited else o)
          (first_of-first_of (found key t.environment) (own_variable t key) (get key inherited))
    where
      base : Map Text Text
      base = insert (codes "TASKNEXUS_TASK_ID") (sys.integer t.task_id) runner.base_env

      inner :
          get key (task_env sys runner t) ≡ first_of (found key t.environment) (own_variable t key)
      inner =
          get-extend_by key t.environment
            (insert (codes "TASKNEXUS_WORKSPACE") t.workspace_name base) h
          ∙ ap (first_of (found key t.environment)) (
              get-insert (codes "TASKNEXUS_WORKSPACE") key t.workspace_name base
              ∙ ap (λ o. if codes "TASKNEXUS_WORKSPACE" == key then some t.workspace_name else o)
                  (get-insert (codes "TASKNEXUS_TASK_ID") key (sys.integer t.task_id)
                    runner.base_env))
