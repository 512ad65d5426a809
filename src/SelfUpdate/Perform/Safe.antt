-- ===== src/SelfUpdate/Perform/Safe.antt =====
-- The agent's binary under `perform_self_update` of agent/src/self_update.rs.
use tasknexus_client_agent.Prelude.{
  ◌≡◌, ◌≢◌, refl, sym, ap, ◌∙◌, subst, Bool, true, false, Option, none, some, [], ◌∷◌, ◌++◌,
  if◌then◌else◌, is_some, ◌⊎◌, inl, inr, get, text_eq, ◌==◌, text_beq_iff, false≢true, Bool-cases,
  append_assoc, insert,
}
use tasknexus_client_agent.Text.{Text, codes, starts_with, strip_prefix-append}
use tasknexus_client_agent.Error.{io, Result, ok, err, ◌>>=◌}
use tasknexus_client_agent.Executor.Paths.{join}
use tasknexus_client_agent.Executor.Paths.Join.{IsDir, IsName}
use tasknexus_client_agent.SelfUpdate.Files.{
  Files, Faults, and_then, ensure_executable, replace_current_binary,
}
use tasknexus_client_agent.SelfUpdate.Replace.{Replaced, get_inserted, get_beside, get_kept}
use tasknexus_client_agent.SelfUpdate.Binary.{replace_current_binary-Replaced}
use tasknexus_client_agent.SelfUpdate.Release.{Server, Platform, ReleasePlan, http_get_bytes}
use tasknexus_client_agent.SelfUpdate.Perform.{
  Temp, ended, save_in, temp_path, is_below, remove_all, remove_dir_all, built, plan_for,
  install_in, perform_self_update,
}

apart : (dir p path : Text) → is_below dir p ≡ true → is_below dir path ≡ false → p ≢ path
apart dir p path below above e = false≢true (sym above ∙ ap (λ q. is_below dir q) (sym e) ∙ below)

differ : (k j : Text) → k ≢ j → (k == j) ≡ false
differ k j d = elim (Bool-cases (k == j)) [
  | inl same ↦ elim (d ((text_beq_iff k j).0 same)) [ ]
  | inr other ↦ other
]

get-remove_all :
    (dir path : Text) (files : Files)
    → is_below dir path ≡ false
    → get path (remove_all dir files) ≡ get path files
unfolding get
get-remove_all dir path [] h = refl
get-remove_all dir path ((p, content) ∷ files) h = elim (Bool-cases (is_below dir p)) [
  | inl below ↦
      rw (below, differ p path (apart dir p path below h)) (get-remove_all dir path files h)
  | inr above ↦
      rw above (ap (λ o. if p == path then some content else o) (get-remove_all dir path files h))
]

get-remove_dir_all :
    (fault : Bool) (dir path : Text) (files : Files)
    → is_below dir path ≡ false
    → get path (remove_dir_all fault dir files) ≡ get path files
get-remove_dir_all true dir path files h = refl
get-remove_dir_all false dir path files h = get-remove_all dir path files h

is_below-append : (dir name : Text) → is_below dir (dir ++ b'/' ∷ name) ≡ true
is_below-append dir name =
    ap (λ t. starts_with (dir ++ codes "/") t) (sym (append_assoc dir (codes "/") name))
    ∙ ap is_some (strip_prefix-append (dir ++ codes "/") name)

-- How an update that downloads `bytes` ends.
abbrev pub Installed : Text → Text → Text → Result Text → Faults → Result Text × Files → Type 0
Installed current_exe backup old bytes faults (ok version, files) =
    (new : Text) × (bytes ≡ ok new)
    × (get current_exe files ≡ some new)
    × (get backup files ≡ some old)
Installed current_exe backup old bytes faults (err e, files) =
    (get current_exe files ≡ some old)
    ⊎ ((get backup files ≡ some old) × (is_some faults.restore_fault ≡ true))

module _ (server : Server) (platform : Platform) (temp : Temp) (faults : Faults) (dir name : Text)
    (d : IsDir dir) (n : IsName name) (old : Text)
    (at : faults.current_exe ≡ inr (join dir name)) where
  abbrev exe : Text
  exe = join dir name

  abbrev backup : Text
  backup = join dir (name ++ codes ".bak")

  -- None of the files beside the binary is below the directory of the download.
  pub record IsBeside (below : Text) : Type 0 where
    pub exe_beside : is_below below (join dir name) ≡ false
    pub staged_beside : is_below below (join dir (name ++ codes ".new")) ≡ false
    pub backup_beside : is_below below (join dir (name ++ codes ".bak")) ≡ false

  ended-Installed :
      (fault : Bool) (below version new : Text) (out : Result (Unit {0}) × Files)
      → IsBeside below
      → Replaced exe backup old new faults out
      → Installed exe backup old (ok new) faults (ended fault below version out)
  ended-Installed fault below version new (ok done, files) b r = (
    new,
    refl,
    get-remove_dir_all fault below exe files b.exe_beside ∙ r.0,
    get-remove_dir_all fault below backup files b.backup_beside ∙ r.1,
  )
  ended-Installed fault below version new (err e, files) b r = r

  module _ (below path : Text) (inside : is_below below path ≡ true) (b : IsBeside below) where
    executable-Installed :
        (new : Text) (files : Files)
        → get path files ≡ some new
        → get exe files ≡ some old
        → Replaced exe backup old new faults (
            and_then
              (ensure_executable faults path files)
              (λ executable. replace_current_binary faults path executable))
    unfolding ensure_executable
    executable-Installed new files g e = rw g (allowed (faults.permission_fault path))
      where
        allowed :
            (fault : Option Text)
            → Replaced exe backup old new faults (
                and_then
                  (elim fault [ none ↦ (ok tt, files) | some e ↦ (err (io e), files) ])
                  (λ executable. replace_current_binary faults path executable))
        allowed none =
            replace_current_binary-Replaced dir name d n faults path old new files at
              (apart below path (join dir (name ++ codes ".new")) inside b.staged_beside)
              (apart below path backup inside b.backup_beside) g e
        allowed (some fault) = inl e

    download-Installed :
        (bytes : Result Text) (fault : Option (Text × Option Text)) (version : Text) (files : Files)
        → get exe files ≡ some old
        → Installed exe backup old bytes faults (
            ended temp.remove_fault below version (
              and_then (save_in fault path bytes files) (λ downloaded.
                and_then
                  (ensure_executable faults path downloaded)
                  (λ executable. replace_current_binary faults path executable))))
    download-Installed (err e) fault version files x = inl x
    download-Installed (ok new) none version files x =
        ended-Installed temp.remove_fault below version new _ b (
          executable-Installed new (insert path new files) (get_inserted path new files)
            (get_beside path exe new files (apart below path exe inside b.exe_beside) ∙ x))
    download-Installed (ok new) (some (e, none)) version files x =
        inl (get_kept path exe files (apart below path exe inside b.exe_beside) ∙ x)
    download-Installed (ok new) (some (e, some part)) version files x =
        inl (get_beside path exe part files (apart below path exe inside b.exe_beside) ∙ x)

  -- Of a binary that is a file of an absolute directory other than the root, a plan that could be made,
  -- and a temporary directory that the download goes into and the binary, its staged copy and its
  -- backup do not: whatever call fails, of the network or of the file system, an update that succeeds has put the
  -- bytes that were downloaded in the place of the binary and kept the old one as its backup, and an
  -- update that fails has left the old binary in place, or as the backup if it could not be put back.
  pub perform_self_update-Installed :
      (download_url : Option Text) (plan : ReleasePlan) (files : Files)
      → plan_for server platform download_url ≡ ok plan
      → is_below (temp_path temp) (join (temp_path temp) plan.agent_name) ≡ true
      → IsBeside (temp_path temp)
      → get (join dir name) files ≡ some old
      → Installed
          (join dir name)
          (join dir (name ++ codes ".bak"))
          old
          (http_get_bytes server platform plan.agent_url)
          faults
          (perform_self_update server platform temp faults download_url files)
  unfolding perform_self_update
  perform_self_update-Installed url plan files p inside b x =
      subst
        (λ r. Installed exe backup old bytes faults (performed r server.build temp.create_fault))
        (sym p) (go server.build temp.create_fault)
    where
      bytes : Result Text
      bytes = http_get_bytes server platform plan.agent_url

      performed : Result ReleasePlan → Option Text → Option Text → Result Text × Files
      performed planned build create =
          install_in server platform temp faults
            (built build >>= λ client. planned >>= λ plan.
              (elim create [ none ↦ ok (temp_path temp) | some e ↦ err (io e) ]) >>= λ dir.
              ok (plan, dir))
            files

      go :
          (build create : Option Text)
          → Installed exe backup old bytes faults (performed (ok plan) build create)
      go (some e) create = inl x
      go none (some e) = inl x
      go none none =
          download-Installed (temp_path temp) (join (temp_path temp) plan.agent_name) inside b bytes
            temp.write_fault plan.target_version files x
