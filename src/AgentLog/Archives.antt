-- ===== src/AgentLog/Archives.antt =====
-- What an archiving leaves of the agent's logs, in agent/src/main.rs.
use tasknexus_client_agent.Prelude.{
  ◌&&◌, ℕ, ◌-◌, ◌≡◌, ◌≢◌, refl, sym, ap, ◌∙◌, subst, Bool, true, false, false≢true, Option, none,
  some, [], ◌∷◌, ◌++◌, append_assoc, if◌then◌else◌, if-both, ltb, is_some, get, insert, remove,
  get-insert, get-remove, text_eq, text_beq_iff, ◌==◌, ==_refl, Bool-cases, inl, inr,
}
use tasknexus_client_agent.Text.{Text, codes, starts_with, strip_prefix-append}
use tasknexus_client_agent.Executor.Script.{ends_with, strip_suffix, under}
use tasknexus_client_agent.AgentLog.{
  Dir, Disk, RotatingAgentLog, LogNames, is_archive, without, is_removed, cleanup_archives,
  archive_name, moved, opened, name_of, stem_of, ext_of, archived, new_log, open_new,
  rotate_if_needed,
}

under-is_some : (c : ℕ) (o : Option Text) → is_some o ≡ true → is_some (under c o) ≡ true
under-is_some c none h = h
under-is_some c (some t) h = refl

ends_with-append : (u p : Text) → ends_with p (u ++ p) ≡ true
unfolding strip_suffix
ends_with-append [] [] = refl
ends_with-append [] (c ∷ p) = rw (==_refl (c ∷ p)) refl
ends_with-append (c ∷ u) p =
    if-both (λ (o : Option Text). is_some o ≡ true) ((c ∷ (u ++ p)) == p) (λ _. refl)
      (λ _. under-is_some c (strip_suffix p (u ++ p)) (ends_with-append u p))

starts_with-append : (p t : Text) → starts_with p (p ++ t) ≡ true
starts_with-append p t = ap is_some (strip_prefix-append p t)

-- What is put aside is an archive.
archive_name-is_archive :
    (disk : Disk) (stem ext : Text) → is_archive stem ext (archive_name disk stem ext) ≡ true
archive_name-is_archive disk stem ext = rw (front, back) refl
  where
    front : starts_with (stem ++ codes "_") (archive_name disk stem ext) ≡ true
    front =
        ap (starts_with (stem ++ codes "_"))
          (sym (append_assoc stem (codes "_") (disk.stamp ++ (codes "." ++ ext))))
        ∙ starts_with-append (stem ++ codes "_") (disk.stamp ++ (codes "." ++ ext))

    back : ends_with (codes "." ++ ext) (archive_name disk stem ext) ≡ true
    back =
        ap (ends_with (codes "." ++ ext)) (
          ap (λ t. stem ++ t) (sym (append_assoc (codes "_") disk.stamp (codes "." ++ ext)))
          ∙ sym (append_assoc stem (codes "_" ++ disk.stamp) (codes "." ++ ext)))
        ∙ ends_with-append (stem ++ (codes "_" ++ disk.stamp)) (codes "." ++ ext)

get-without :
    (goes : Text → Bool) (k : Text) (dir : Dir)
    → get k (without goes dir) ≡ (if goes k then none else get k dir)
unfolding get
get-without goes k [] = if-both (λ (o : Option Text). none ≡ o) (goes k) (λ _. refl) (λ _. refl)
get-without goes k ((name, content) ∷ dir) = elim (Bool-cases (name == k)) [
  | inl same ↦
      subst
        (λ j.
          get k (without goes ((j, content) ∷ dir))
          ≡ (if goes k then none else get k ((j, content) ∷ dir)))
        (sym ((text_beq_iff name k).0 same))
        (elim (Bool-cases (goes k)) [
          | inl gone ↦ rw gone (get-without goes k dir ∙ rw gone refl)
          | inr stays ↦ rw (stays, ==_refl k) refl
        ])
  | inr other ↦ elim (Bool-cases (goes name)) [
    | inl gone ↦ rw (gone, other) (get-without goes k dir)
    | inr stays ↦ rw (stays, other) (get-without goes k dir)
  ]
]

differ : (k j : Text) → k ≢ j → (k == j) ≡ false
differ k j d = elim (Bool-cases (k == j)) [
  | inl same ↦ elim (d ((text_beq_iff k j).0 same)) [ ]
  | inr other ↦ other
]

-- The files once the log was put aside and a new one was opened: the log has nothing in it; what it
-- had stands under its stem, the time and its extension; and of the other names that begin with the
-- stem and a low line and end with the extension, those that can be removed are gone.
abbrev pub after_archive : Disk → Text → Text → Text → Text → Dir → Text → Option Text
after_archive disk stem ext name content dir k =
    if name == k
    then some []
    else if (stem ++ (codes "_" ++ (disk.stamp ++ (codes "." ++ ext)))) == k
    then some content
    else if (starts_with (stem ++ codes "_") k && ends_with (codes "." ++ ext) k)
        && disk.removable k
    then none
    else get k dir

put_aside :
    (disk : Disk) (stem ext name archive content : Text) (dir : Dir) (k : Text)
    → archive ≢ name
    → get k (opened name (insert archive content (remove name dir)))
      ≡ (if name == k then some [] else if archive == k then some content else get k dir)
put_aside disk stem ext name archive content dir k apart =
    rw (fresh, get-insert, get-insert, get-remove) (inner (name == k))
  where
    fresh : get name (insert archive content (remove name dir)) ≡ none
    fresh = rw (get-insert, differ archive name apart, get-remove, ==_refl name) refl

    inner :
        (same : Bool)
        → (if same
            then some []
            else if archive == k
            then some content
            else if same
            then none
            else get k dir)
          ≡ (if same then some [] else if archive == k then some content else get k dir)
    inner true = refl
    inner false = refl

module _ (disk : Disk) (stem ext name content : Text) (dir : Dir) (listed : disk.listed ≡ true)
    (plain : is_archive stem ext name ≡ false) (found : get name dir ≡ some content) where
  archive_apart : archive_name disk stem ext ≢ name
  archive_apart e =
      false≢true
        (sym plain ∙ ap (is_archive stem ext) (sym e) ∙ archive_name-is_archive disk stem ext)

  get-cleaned :
      (k : Text)
      → get k (cleanup_archives disk stem ext dir)
        ≡ (if is_removed disk stem ext k then none else get k dir)
  unfolding cleanup_archives
  get-cleaned k = rw listed (get-without (is_removed disk stem ext) k dir)

  found_still : get name (cleanup_archives disk stem ext dir) ≡ some content
  found_still = get-cleaned name ∙ rw plain found

  archived-get :
      (k : Text)
      → get k (
          opened name (
            moved
              (get name (cleanup_archives disk stem ext dir))
              name
              (archive_name disk stem ext)
              (cleanup_archives disk stem ext dir)))
        ≡ after_archive disk stem ext name content dir k
  archived-get k =
      ap
        (λ o. get k (
          opened name
            (moved o name (archive_name disk stem ext) (cleanup_archives disk stem ext dir))))
        found_still
      ∙ put_aside disk stem ext name (archive_name disk stem ext) content
          (cleanup_archives disk stem ext dir) k archive_apart
      ∙ ap
          (λ o.
            if name == k
            then some []
            else if archive_name disk stem ext == k
            then some content
            else o)
          (get-cleaned k)

-- Of a log whose name does not begin with its stem and a low line and end with its extension: if it is
-- 24 hours old, the directory can be read, the rename works and the new file can be opened, then it is
-- put aside with all that it has, under its stem, the time and its extension, and a new one begins. Of
-- the other files whose names begin with the stem and a low line and end with the extension, be
-- they archives or not, those go that can be removed; every other file stays.
pub rotate_if_needed-archives :
    (disk : Disk) (l : RotatingAgentLog) (dir : Dir) (content : Text)
    → ltb (disk.now - l.created_at) l.max_age ≡ false
    → disk.listed ≡ true
    → disk.renames ≡ true
    → disk.open_error ≡ none
    → (starts_with (l.stem ++ codes "_") l.file_name && ends_with (codes "." ++ l.ext) l.file_name)
      ≡ false
    → get l.file_name dir ≡ some content
    → let r = rotate_if_needed disk l dir in
      (r.0.file ≡ l.file_name)
      × (r.0.created_at ≡ disk.now)
      × ((k : Text) → get k r.1 ≡ after_archive disk l.stem l.ext l.file_name content dir k)
unfolding rotate_if_needed
rotate_if_needed-archives disk l dir content due listed renames opens plain found = (
  rw (due, opens) refl,
  rw (due, opens) refl,
  λ k.
      rw (due, opens, renames)
        (archived-get disk l.stem l.ext l.file_name content dir listed plain found k),
)

archived-moved :
    (disk : Disk) (name stem ext content : Text) (dir : Dir)
    → disk.renames ≡ true
    → get name dir ≡ some content
    → archived disk name stem ext dir ≡ moved (get name dir) name (archive_name disk stem ext) dir
archived-moved disk name stem ext content dir renames found = rw (found, renames) refl

-- At a start the log of the last run is put aside in the same way.
pub new_log-archives :
    (disk : Disk) (names : LogNames) (dir : Dir) (content : Text)
    → disk.listed ≡ true
    → disk.renames ≡ true
    → disk.open_error ≡ none
    → is_archive (stem_of names) (ext_of names) (name_of names) ≡ false
    → get (name_of names) dir ≡ some content
    → (k : Text)
    → get k (new_log disk names dir).1
      ≡ after_archive disk (stem_of names) (ext_of names) (name_of names) content dir k
unfolding new_log
new_log-archives disk names dir content listed renames opens plain found k =
    let name = name_of names in
    let stem = stem_of names in
    let ext = ext_of names in
    let cleaned = cleanup_archives disk stem ext dir in
    ap (λ e. get k (open_new e disk names (archived disk name stem ext cleaned)).1) opens
    ∙ ap (λ d. get k (opened name d))
        (archived-moved disk name stem ext content cleaned renames
          (found_still disk stem ext name content dir listed plain found))
    ∙ archived-get disk stem ext name content dir listed plain found k
