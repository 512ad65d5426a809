-- ===== src/SelfUpdate/Replace.antt =====
-- The agent's binary under `replace_current_binary` of agent/src/self_update.rs.
use tasknexus_client_agent.Prelude.{
  ◌≡◌, ◌≢◌, refl, sym, ap, ◌∙◌, ◌⊎◌, inl, inr, true, false, Option, none, some, [], if-both,
  is_some, or_else, get, insert, remove, get-insert, get-remove, text_eq, text_beq_iff, ◌==◌,
  ==_refl, Bool-cases,
}
use tasknexus_client_agent.Text.{Text}
use tasknexus_client_agent.Error.{Result, ok, err, io}
use tasknexus_client_agent.SelfUpdate.Files.{
  Files, Faults, Action, and_then, put, remove_file, rename, copied, map_err, ensure_executable,
  or_restore, finalize, replace_at,
}

-- What becomes of the old binary and the new one: the new one is in place and the old one its backup;
-- or the old one is in place; or it could not be put back, and is the backup.
abbrev pub Replaced : Text → Text → Text → Text → Faults → Result (Unit {0}) × Files → Type 0
Replaced current_exe backup old new faults (ok done, files) =
    (get current_exe files ≡ some new) × (get backup files ≡ some old)
Replaced current_exe backup old new faults (err e, files) =
    (get current_exe files ≡ some old)
    ⊎ ((get backup files ≡ some old) × (is_some faults.restore_fault ≡ true))

pub get_inserted : (k v : Text) (m : Files) → get k (insert k v m) ≡ some v
get_inserted k v m = rw (get-insert, ==_refl k) refl

differ : (k j : Text) → k ≢ j → (k == j) ≡ false
differ k j d = elim (Bool-cases (k == j)) [
  | inl same ↦ elim (d ((text_beq_iff k j).0 same)) [ ]
  | inr other ↦ other
]

pub get_beside : (k j v : Text) (m : Files) → k ≢ j → get j (insert k v m) ≡ get j m
get_beside k j v m d = rw (get-insert, differ k j d) refl

pub get_kept : (k j : Text) (m : Files) → k ≢ j → get j (remove k m) ≡ get j m
get_kept k j m d = rw (get-remove, differ k j d) refl

cleared_lem :
    (faults : Faults) (path other : Text) (files : Files)
    → path ≢ other
    → get other (remove_file faults path files) ≡ get other files
cleared_lem faults path other files d =
    if-both (λ (after : Files). get other after ≡ get other files)
      (is_some (faults.remove_fault path)) (λ _. refl) (λ _. get_kept path other files d)

some_content : {a b : Text} → some a ≡ some b → a ≡ b
some_content e = ap (λ o. or_else o []) e

module _ (faults : Faults) (current_exe staged backup old new : Text)
    (exe_staged : current_exe ≢ staged) (exe_backup : current_exe ≢ backup)
    (staged_backup : staged ≢ backup) where
  restore_lem :
      (restore : Option Text) (files : Files)
      → get backup files ≡ some old
      → let after = (rename faults restore backup current_exe files).1 in
        (get current_exe after ≡ some old)
        ⊎ ((get backup after ≡ some old) × (is_some restore ≡ true))
  restore_lem none files b = rw b (inl (get_inserted current_exe old (remove backup files)))
  restore_lem (some e) files b = inr (b, refl)

  finalize_lem :
      (fault : Option Text) (files : Files)
      → get staged files ≡ some new
      → get backup files ≡ some old
      → Replaced current_exe backup old new faults
          (or_restore faults current_exe backup (rename faults fault staged current_exe files))
  finalize_lem none files s b = rw s (
    get_inserted current_exe new (remove staged files),
    get_beside current_exe backup new (remove staged files) exe_backup
        ∙ get_kept staged backup files staged_backup
        ∙ b,
  )
  finalize_lem (some e) files s b = restore_lem faults.restore_fault files b

  back_up_lem :
      (fault : Option Text) (message : Text → Text) (files : Files)
      → get staged files ≡ some new
      → get current_exe files ≡ some old
      → Replaced current_exe backup old new faults (
          and_then
            (map_err message (rename faults fault current_exe backup files))
            (λ l. finalize faults staged backup current_exe l))
  back_up_lem none message files s e = rw e (
      finalize_lem faults.final_fault (insert backup old (remove current_exe files))
        (get_beside backup staged old (remove current_exe files) (λ q. staged_backup (sym q))
          ∙ get_kept current_exe staged files exe_staged
          ∙ s)
        (get_inserted backup old (remove current_exe files)))
  back_up_lem (some fault) message files s e = inl e

  -- An action that leaves everything but the staged file alone
  abbrev Staged : Result (Unit {0}) × Files → Type 0
  Staged (ok done, files) = (get staged files ≡ some new) × (get current_exe files ≡ some old)
  Staged (err e, files) = get current_exe files ≡ some old

  put_other :
      (content : Option Text) (files : Files)
      → get current_exe (put staged content files) ≡ get current_exe files
  put_other none files = get_kept staged current_exe files (λ q. exe_staged (sym q))
  put_other (some content) files =
      get_beside staged current_exe content files (λ q. exe_staged (sym q))

  stage_lem :
      (message : Text → Text) (source : Option Text) (fault : Option (Text × Option Text))
      (files : Files)
      → ((content : Text) → source ≡ some content → content ≡ new)
      → get current_exe files ≡ some old
      → Staged (map_err message (copied faults.not_found source fault staged files))
  stage_lem message none fault files same e = e
  stage_lem message (some content) none files same e = (
    get_inserted staged content files ∙ ap some (same content refl),
    put_other (some content) files ∙ e,
  )
  stage_lem message (some content) (some fault) files same e = put_other fault.1 files ∙ e

  executable_lem :
      (files : Files)
      → get staged files ≡ some new
      → get current_exe files ≡ some old
      → Staged (ensure_executable faults staged files)
  unfolding ensure_executable
  executable_lem files s e = rw s (allowed (faults.permission_fault staged))
    where
      allowed :
          (fault : Option Text)
          → Staged (elim fault [ none ↦ (ok tt, files) | some e ↦ (err (io e), files) ])
      allowed none = (s, e)
      allowed (some fault) = e

  chain :
      (out : Result (Unit {0}) × Files) (rest : Action)
      → Staged out
      → ((files : Files)
          → get staged files ≡ some new
          → get current_exe files ≡ some old
          → Replaced current_exe backup old new faults (rest files))
      → Replaced current_exe backup old new faults (and_then out rest)
  chain (ok done, files) rest p k = k files p.0 p.1
  chain (err e, files) rest p k = inl p

  pub replace_at-Replaced :
      (new_binary : Text) (files : Files)
      → new_binary ≢ staged
      → new_binary ≢ backup
      → get new_binary files ≡ some new
      → get current_exe files ≡ some old
      → Replaced current_exe backup old new faults
          (replace_at faults new_binary current_exe staged backup files)
  unfolding replace_at
  replace_at-Replaced new_binary files ns nb n e =
      let cleared = remove_file faults backup (remove_file faults staged files) in
      let exe_kept : get current_exe cleared ≡ some old =
        cleared_lem faults backup current_exe (remove_file faults staged files)
          (λ q. exe_backup (sym q))
        ∙ cleared_lem faults staged current_exe files (λ q. exe_staged (sym q))
        ∙ e in
      let new_kept : get new_binary cleared ≡ some new =
        cleared_lem faults backup new_binary (remove_file faults staged files) (λ q. nb (sym q))
        ∙ cleared_lem faults staged new_binary files (λ q. ns (sym q))
        ∙ n in
      chain _ _
        (stage_lem _ (get new_binary cleared) faults.copy_fault cleared
          (λ content c. some_content (sym c ∙ new_kept)) exe_kept)
        (λ copied_to s x.
          chain _ _ (executable_lem copied_to s x)
            (λ executable s' x'. back_up_lem faults.backup_fault _ executable s' x'))
