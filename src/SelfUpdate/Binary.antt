-- ===== src/SelfUpdate/Binary.antt =====
-- `replace_current_binary` of agent/src/self_update.rs at the path of the running binary.
use tasknexus_client_agent.Prelude.{
  ℕ, ◌≡◌, ◌≢◌, refl, sym, ap, ◌∙◌, inr, false, ◌||◌, some, [], ◌∷◌, ◌++◌, length, length-append,
  drop, drop-append_length, get, text_eq, arith, subst, if-both, is_empty, Option-cases, Bool-cases,
  inl, get-remove, text_beq_iff, false≢true, none, if◌then◌else◌, ◌==◌,
}
use tasknexus_client_agent.Text.{Text, codes, contains}
use tasknexus_client_agent.Executor.Paths.{join, is_skipped}
use tasknexus_client_agent.Executor.Paths.Join.{
  IsDir, IsName, join-segment, file_name-join, parent-join,
}
use tasknexus_client_agent.SelfUpdate.Files.{
  Files, Faults, replace_from, replace_current_binary, cleanup_from, cleanup_previous_update,
  remove_existing,
}
use tasknexus_client_agent.SelfUpdate.Replace.{Replaced, replace_at-Replaced}

contains-append : (c : ℕ) (s t : Text) → contains c (s ++ t) ≡ (contains c s || contains c t)
unfolding contains
contains-append c [] t = refl
contains-append c (d ∷ s) t = ground (arith, contains-append c s t)

append_cancel : (s t u : Text) → s ++ t ≡ s ++ u → t ≡ u
append_cancel s t u e =
    sym (drop-append_length s t) ∙ ap (drop (length s)) e ∙ drop-append_length s u

longer : (s t : Text) → s ≡ s ++ t → length t ≡ 0
longer s t e = omega (arith, ap length e, length-append s t)

named : (name : Text) → is_skipped name ≡ false → is_empty name ≡ false
named [] h = h
named (c ∷ name) h = refl

untouched :
    (bak path : Text) (files : Files)
    → get bak files ≡ none
    → get path files ≡ (if bak == path then none else get path files)
untouched bak path files missing = elim (Bool-cases (bak == path)) [
  | inl same ↦ rw same (ap (λ k. get k files) (sym ((text_beq_iff bak path).0 same)) ∙ missing)
  | inr other ↦ rw other refl
]

get-remove_existing :
    (faults : Faults) (bak path : Text) (files : Files)
    → faults.remove_fault bak ≡ none
    → get path (remove_existing faults bak files) ≡ (if bak == path then none else get path files)
get-remove_existing faults bak path files r = elim (Option-cases (get bak files)) [
  | inl missing ↦ rw missing (untouched bak path files missing)
  | inr (content, found) ↦ rw (found, r) (get-remove bak path files)
]

new_bak : codes ".new" ≢ codes ".bak"
new_bak e = false≢true ((text_beq_iff (codes ".new") (codes ".bak")).1 e)

module _ (dir name : Text) (d : IsDir dir) (n : IsName name) where
  suffixed : Text → Text
  suffixed suffix = join dir (name ++ suffix)

  segment_of :
      (suffix : Text) → contains b'/' suffix ≡ false → contains b'/' (name ++ suffix) ≡ false
  segment_of suffix h = contains-append b'/' name suffix ∙ rw (n.segment, h) refl

  exe_suffixed :
      (suffix : Text)
      → contains b'/' suffix ≡ false
      → length suffix ≢ 0
      → join dir name ≢ join dir (name ++ suffix)
  exe_suffixed suffix h l e = l (
      longer name suffix (
        ap (drop 1) (
          append_cancel dir (b'/' ∷ name) (b'/' ∷ (name ++ suffix)) (
            sym (join-segment dir name d.open_end n.segment)
            ∙ e
            ∙ join-segment dir (name ++ suffix) d.open_end (segment_of suffix h)))))

  suffixed_apart :
      (s t : Text)
      → contains b'/' s ≡ false
      → contains b'/' t ≡ false
      → s ≢ t
      → join dir (name ++ s) ≢ join dir (name ++ t)
  suffixed_apart s t hs ht apart e = apart (
      append_cancel name s t (
        ap (drop 1) (
          append_cancel dir (b'/' ∷ (name ++ s)) (b'/' ∷ (name ++ t)) (
            sym (join-segment dir (name ++ s) d.open_end (segment_of s hs))
            ∙ e
            ∙ join-segment dir (name ++ t) d.open_end (segment_of t ht)))))

  -- Whatever call of the file system fails, the agent is never left without a binary. On success the
  -- new binary is in place and the old one is its backup, `.bak`; on a failure the old one is in
  -- place, or, if it could not be renamed back, it is the backup.
  pub replace_current_binary-Replaced :
      (faults : Faults) (new_binary old new : Text) (files : Files)
      → faults.current_exe ≡ inr (join dir name)
      → new_binary ≢ join dir (name ++ codes ".new")
      → new_binary ≢ join dir (name ++ codes ".bak")
      → get new_binary files ≡ some new
      → get (join dir name) files ≡ some old
      → Replaced
          (join dir name)
          (join dir (name ++ codes ".bak"))
          old
          new
          faults
          (replace_current_binary faults new_binary files)
  unfolding replace_current_binary contains
  replace_current_binary-Replaced faults new_binary old new files at ns nb g e =
      subst
        (λ o.
          Replaced (join dir name) (join dir (name ++ codes ".bak")) old new faults
            (replace_from faults new_binary o files))
        (sym at)
        (rw (parent-join dir name d n, file_name-join dir name d n)
          (replace_at-Replaced faults (join dir name) (join dir (name ++ codes ".new"))
            (join dir (name ++ codes ".bak")) old new (exe_suffixed (codes ".new") refl (λ q. cc))
            (exe_suffixed (codes ".bak") refl (λ q. cc))
            (suffixed_apart (codes ".new") (codes ".bak") refl refl new_bak) new_binary files ns nb
            g e))

  -- Once the agent has started again, the backup of an update is gone, if it can be removed, and
  -- every other file is as it was.
  pub cleanup_previous_update-get :
      (faults : Faults) (path : Text) (files : Files)
      → faults.current_exe ≡ inr (join dir name)
      → faults.remove_fault (join dir (name ++ codes ".bak")) ≡ none
      → get path (cleanup_previous_update faults files)
        ≡ (if join dir (name ++ codes ".bak") == path then none else get path files)
  unfolding cleanup_previous_update
  cleanup_previous_update-get faults path files at r =
      subst
        (λ o.
          get path (cleanup_from faults o files)
          ≡ (if join dir (name ++ codes ".bak") == path then none else get path files))
        (sym at)
        (rw (parent-join dir name d n, file_name-join dir name d n)
          (if-both
            (λ (after : Files).
              get path after
              ≡ (if join dir (name ++ codes ".bak") == path then none else get path files))
            (is_empty name) (λ h. elim (false≢true (sym (named name n.kept) ∙ h)) [ ])
            (λ h. get-remove_existing faults (join dir (name ++ codes ".bak")) path files r)))
