-- ===== src/Store/Disk/RoundTrip.antt =====
-- What a restart finds of what was saved.
use tasknexus_client_agent.Prelude.{
  ℤ, int_eq, eqb_ℤ_iff, ◌==◌, Bool, true, false, Option, none, some, List, [], ◌∷◌, ◌≡◌, refl,
  subst, if◌then◌else◌, Map, get, insert, get-insert, ◌∙◌, ap, inr,
}
use tasknexus_client_agent.Text.{Text}
use tasknexus_client_agent.Error.{Result, ok}
use tasknexus_client_agent.Store.{
  PersistedTaskState, PersistedStateFile, PersistedStateStore, StatePath, get_task, snapshot,
  values, id_of,
}
use tasknexus_client_agent.Store.Sorted.{
  find_last, or_last, find_last-sort, sort_by_key-IsSorted, IsSorted,
}
use tasknexus_client_agent.Store.Inv.{AreValid, IsValid}
use tasknexus_client_agent.Store.Disk.{
  Disk, Codec, create_dir_all, write_content, write_ending, or_execution, parent, state_path,
  collect_on, load, save, file_of, when_ok, parent_or_error,
}

parent-some : (p : StatePath) → (q : StatePath) × (parent (state_path p) ≡ some q)
parent-some [] = (_, refl)
parent-some (name ∷ []) = (_, refl)
parent-some (name ∷ next ∷ rest) = let h = parent-some (next ∷ rest) in (name ∷ h.0, rw h.1 refl)

when_ok-ok :
    {A : Type 0} (rest : A → Result (Unit {0}) × Disk) (disk : Disk) (r : Result A) (a : A)
    → r ≡ ok a
    → when_ok r rest disk ≡ rest a
when_ok-ok rest disk r a h = ap (λ x. when_ok x rest disk) h

module _ {V : Type 0} where
  step :
      (t id : ℤ) (task : PersistedTaskState V) (o old new : Option (PersistedTaskState V))
      → new ≡ (if id == t then some task else old)
      → or_last id_of o new
        ≡ or_last id_of (or_last id_of o (if id == t then some task else none)) old
  step t id task (some last) old new h = refl
  step t id task none old new h = h ∙ or_if (id == t)
    where
      or_if :
          (b : Bool)
          → (if b then some task else old) ≡ or_last id_of (if b then some task else none) old
      or_if true = refl
      or_if false = refl

  get-collect_on :
      (t : ℤ) (l : List (PersistedTaskState V)) (m : Map ℤ (PersistedTaskState V))
      → get t (collect_on m l) ≡ or_last id_of (find_last id_of t l) (get t m)
  unfolding collect_on
  get-collect_on t [] m = refl
  get-collect_on t (task ∷ l) m =
      get-collect_on t l (insert task.task_id task m)
      ∙ step t task.task_id task (find_last id_of t l) (get t m) _
          (get-insert task.task_id t task m)

  last_none : (o : Option (PersistedTaskState V)) → or_last id_of o none ≡ o
  last_none none = refl
  last_none (some task) = refl

  or_last-if :
      (b : Bool) (task : PersistedTaskState V) (last g : Option (PersistedTaskState V))
      → (b ≡ true → g ≡ none)
      → last ≡ g
      → or_last id_of last (if b then some task else none) ≡ (if b then some task else g)
  or_last-if true task last g n h = ap (λ o. or_last id_of o (some task)) (h ∙ n refl)
  or_last-if false task last g n h = last_none last ∙ h

  -- A task that is not found again behind its entry.
  at_head :
      (t id j : ℤ) (task : PersistedTaskState V) (m : Map ℤ (PersistedTaskState V))
      (last : Option (PersistedTaskState V))
      → j ≡ id
      → get id m ≡ none
      → last ≡ get t m
      → or_last id_of last (if j == t then some task else none)
        ≡ (if id == t then some task else get t m)
  at_head t id j task m last k f h =
      ap (λ i. or_last id_of last (if i == t then some task else none)) k
      ∙ or_last-if (id == t) task last (get t m)
          (λ b. subst (λ i. get i m ≡ none) ((eqb_ℤ_iff id t).0 b) f) h

  -- The tasks of a valid store, found by their numbers.
  find_last-values :
      (t : ℤ) (m : Map ℤ (PersistedTaskState V))
      → AreValid m
      → find_last id_of t (values m) ≡ get t m
  unfolding get
  find_last-values t [] v = refl
  find_last-values t ((id, task) ∷ m) (k, f, v) =
      at_head t id task.task_id task m (find_last id_of t (values m)) k f (find_last-values t m v)

  -- `snapshot` of a valid store lists the entry of each task, and nothing for any other number, in the
  -- order of the numbers.
  pub snapshot-find :
      (id : ℤ) (s : PersistedStateStore V)
      → IsValid s
      → IsSorted id_of (snapshot s) × (find_last id_of id (snapshot s) ≡ get_task id s)
  unfolding snapshot get_task
  snapshot-find id s valid = (
    sort_by_key-IsSorted id_of (values s.tasks),
    find_last-sort id_of id (values s.tasks) ∙ find_last-values id s.tasks valid,
  )

  create_dir_all-ok :
      (codec : Codec V) (path : StatePath) (disk : Disk)
      → disk.dir_fault ≡ none
      → create_dir_all codec path disk ≡ ok tt
  create_dir_all-ok codec path disk h = rw h refl

  write_content-ok :
      (codec : Codec V) (path : StatePath) (text : Text) (disk : Disk)
      → disk.write_fault ≡ none
      → write_content codec path text disk ≡ (ok tt, record disk { content = some text })
  write_content-ok codec path text disk h = ap (write_ending codec path text disk) h

  save-ok :
      (codec : Codec V) (workspaces : StatePath) (s : PersistedStateStore V) (disk : Disk)
      (text : Text)
      → s.state_file_path ≡ state_path workspaces
      → codec.to_string_pretty (file_of s) ≡ inr text
      → disk.dir_fault ≡ none
      → disk.write_fault ≡ none
      → save codec s disk ≡ (ok tt, record disk { content = some text })
  unfolding save
  save-ok codec workspaces s disk text path encoded no_dir no_write =
      let dir = (parent-some workspaces).0 in
      let e =
        ap (λ p. parent_or_error (parent p)) path ∙ ap parent_or_error (parent-some workspaces).1 in
      when_ok-ok _ disk (parent_or_error (parent s.state_file_path)) dir e
      ∙ when_ok-ok _ disk (create_dir_all codec dir disk) tt
          (create_dir_all-ok codec dir disk no_dir)
      ∙ when_ok-ok _ disk (or_execution _ (codec.to_string_pretty (file_of s))) text
          (ap (or_execution _) encoded)
      ∙ write_content-ok codec s.state_file_path text disk no_write

  load-ok :
      (codec : Codec V) (workspaces : StatePath) (file : PersistedStateFile V) (disk : Disk)
      (text : Text)
      → codec.from_str text ≡ inr file
      → disk.read_fault ≡ none
      → load codec workspaces (record disk { content = some text })
        ≡ ok (record { state_file_path = state_path workspaces; tasks = collect_on [] file.tasks })
  unfolding load
  load-ok codec workspaces file disk text decoded no_read = rw (no_read, decoded) refl

  -- A store that was saved without a fault, and that the serde_json crate reads as it wrote it, is
  -- loaded after a restart with the same state of every task, and never fails to.
  pub load-save :
      (codec : Codec V) (workspaces : StatePath) (s : PersistedStateStore V) (disk : Disk)
      (text : Text)
      → s.state_file_path ≡ state_path workspaces
      → IsValid s
      → codec.to_string_pretty (file_of s) ≡ inr text
      → codec.from_str text ≡ inr (file_of s)
      → disk.dir_fault ≡ none
      → disk.write_fault ≡ none
      → disk.read_fault ≡ none
      → ((save codec s disk).0 ≡ ok tt)
        × (t : PersistedStateStore V) × (load codec workspaces (save codec s disk).1 ≡ ok t)
        × ((id : ℤ) → get_task id t ≡ get_task id s)
  unfolding load get_task get
  load-save codec workspaces s disk text path valid encoded decoded no_dir no_write no_read =
      let saved = save-ok codec workspaces s disk text path encoded no_dir no_write in
      (
        ap (λ r. r.0) saved,
        record { state_file_path = state_path workspaces; tasks = collect_on [] (snapshot s) },
        ap (λ r. load codec workspaces r.1) saved
            ∙ load-ok codec workspaces (file_of s) (record disk { content = some text }) text
                decoded no_read,
        λ id.
            get-collect_on id (snapshot s) []
            ∙ ap (λ o. or_last id_of o none) (snapshot-find id s valid).1
            ∙ last_none (get id s.tasks),
      )
