-- ===== src/Store/Disk.antt =====
-- `load` and `save` of `PersistedStateStore`, over the state file and the serde_json crate.
pub mod RoundTrip
use tasknexus_client_agent.Prelude.{
  ℤ, int_eq, Option, none, some, List, [], ◌∷◌, ◌++◌, if◌then◌else◌, Map, insert, ◌⊎◌, inl, inr,
}
use tasknexus_client_agent.Text.{Text, codes}
use tasknexus_client_agent.Error.{AgentError, Result, ok, err, execution, ◌>>=◌}
use tasknexus_client_agent.Store.{
  PersistedTaskState, PersistedStateFile, PersistedStateStore, StatePath, current_state_version,
  snapshot,
}

-- The state file: its content where it exists, and how the next calls of the file system end. A
-- write that fails may leave anything.
pub record Disk : Type 0 where
  pub content : Option Text
  pub read_fault : Option Text
  pub dir_fault : Option Text
  pub write_fault : Option (Text × Option Text)

-- The serde_json crate at the type of the state file, and `display` of a path.
pub record Codec (V : Type 0) : Type 0 where
  pub to_string_pretty : PersistedStateFile V → Text ⊎ Text
  pub from_str : Text → Text ⊎ PersistedStateFile V
  pub display : StatePath → Text

abbrev pub parent : StatePath → Option StatePath
parent [] = none
parent (name ∷ []) = some []
parent (name ∷ next ∷ rest) = elim (parent (next ∷ rest)) [
  | none ↦ none
  | some path ↦ some (name ∷ path)
]

abbrev pub state_path : StatePath → StatePath
state_path workspaces_path =
    workspaces_path ++ (codes ".tasknexus_agent" ∷ codes "agent_state.json" ∷ [])

abbrev pub or_execution {ℓ} : {A : Type ℓ} → (Text → Text) → Text ⊎ A → Result A
or_execution message (inl e) = err (execution (message e))
or_execution message (inr a) = ok a

abbrev pub read_to_string : Disk → Text → Text ⊎ Text
read_to_string disk text = elim disk.read_fault [ none ↦ inr text | some e ↦ inl e ]

-- Each step of `save` runs if the one before it succeeded.
abbrev pub when_ok {ℓ} :
    {A : Type ℓ} → Result A → (A → Result (Unit {0}) × Disk) → Disk → Result (Unit {0}) × Disk
when_ok (ok a) rest disk = rest a
when_ok (err e) rest disk = (err e, disk)

abbrev pub parent_or_error : Option StatePath → Result StatePath
parent_or_error none = err (execution (codes "Persisted agent state path has no parent directory"))
parent_or_error (some path) = ok path

module _ {V : Type 0} where
  -- `collect` of the tasks under their numbers: of two with one number, the last stays.
  unfoldable pub collect_on :
      Map ℤ (PersistedTaskState V) → List (PersistedTaskState V) → Map ℤ (PersistedTaskState V)
  collect_on m [] = m
  collect_on m (task ∷ l) = collect_on (insert task.task_id task m) l

  abbrev pub load_content :
      Codec V → StatePath → Disk → Option Text → Result (PersistedStateStore V)
  load_content codec path disk none = ok (record { state_file_path = path; tasks = [] })
  load_content codec path disk (some text) =
      or_execution
        (λ e.
          codes "Failed to read persisted agent state '"
          ++ (codec.display path ++ (codes "': " ++ e)))
        (read_to_string disk text)
      >>= λ content.
          or_execution
            (λ e.
              codes "Failed to parse persisted agent state '"
              ++ (codec.display path ++ (codes "': " ++ e)))
            (codec.from_str content)
          >>= λ decoded. ok (record { state_file_path = path; tasks = collect_on [] decoded.tasks })

  unfoldable pub load : Codec V → StatePath → Disk → Result (PersistedStateStore V)
  unfolding collect_on
  load codec workspaces_path disk =
      load_content codec (state_path workspaces_path) disk disk.content

  abbrev pub file_of : PersistedStateStore V → PersistedStateFile V
  file_of s = record { version = current_state_version; tasks = snapshot s }

  abbrev pub create_dir_all : Codec V → StatePath → Disk → Result (Unit {0})
  create_dir_all codec path disk = elim disk.dir_fault [
    | none ↦ ok tt
    | some e ↦ err (
        execution (
          codes "Failed to create persisted agent state directory '"
          ++ (codec.display path ++ (codes "': " ++ e))))
  ]

  abbrev pub write_ending :
      Codec V → StatePath → Text → Disk → Option (Text × Option Text) → Result (Unit {0}) × Disk
  write_ending codec path text disk none = (ok tt, record disk { content = some text })
  write_ending codec path text disk (some fault) = (
    err (
        execution (
          codes "Failed to write persisted agent state '"
          ++ (codec.display path ++ (codes "': " ++ fault.0)))),
    record disk { content = fault.1 },
  )

  abbrev pub write_content : Codec V → StatePath → Text → Disk → Result (Unit {0}) × Disk
  write_content codec path text disk = write_ending codec path text disk disk.write_fault

  unfoldable pub save : Codec V → PersistedStateStore V → Disk → Result (Unit {0}) × Disk
  save codec s disk =
      when_ok (parent_or_error (parent s.state_file_path))
        (λ dir.
          when_ok (create_dir_all codec dir disk)
            (λ _.
              when_ok
                (or_execution (λ e. codes "Failed to serialize persisted agent state: " ++ e)
                  (codec.to_string_pretty (file_of s)))
                (λ text. write_content codec s.state_file_path text disk) disk)
            disk)
        disk
