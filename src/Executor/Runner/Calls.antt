-- ===== src/Executor/Runner/Calls.antt =====
-- What the calls of a run of agent/src/executor.rs show: which commands failed, which directories were
-- removed, and which files are left.
use tasknexus_client_agent.Prelude.{
  ◌≡◌, refl, ap, Bool, true, false, ◌&&◌, ◌||◌, List, [], ◌∷◌, ◌++◌, if◌then◌else◌, arith, text_eq,
  ◌==◌, ==_refl,
}
use tasknexus_client_agent.Text.{Text}
use tasknexus_client_agent.Executor.Process.{result_of}
use tasknexus_client_agent.Executor.Runner.{
  Call, created, create_failed, ran, wrote, write_failed, removed_file, remove_failed, removed_dir,
  System, zero_exit,
}

abbrev pub all_calls : (Call → Bool) → List Call → Bool
all_calls p [] = true
all_calls p (c ∷ calls) = p c && all_calls p calls

pub all_calls-append :
    (p : Call → Bool) (xs ys : List Call)
    → all_calls p (xs ++ ys) ≡ (all_calls p xs && all_calls p ys)
all_calls-append p [] ys = refl
all_calls-append p (c ∷ xs) ys = ground (arith, all_calls-append p xs ys)

-- No command is run.
abbrev pub is_quiet : Call → Bool
is_quiet (created dir) = true
is_quiet (create_failed dir) = true
is_quiet (ran spawn behaviour) = false
is_quiet (wrote path text) = true
is_quiet (write_failed path) = true
is_quiet (removed_file path) = true
is_quiet (remove_failed path) = true
is_quiet (removed_dir path) = true

-- Nothing is removed, and no file written.
abbrev pub is_preparation : Call → Bool
is_preparation (created dir) = true
is_preparation (create_failed dir) = true
is_preparation (ran spawn behaviour) = true
is_preparation (wrote path text) = false
is_preparation (write_failed path) = true
is_preparation (removed_file path) = false
is_preparation (remove_failed path) = false
is_preparation (removed_dir path) = false

unfoldable pub removed_dirs : List Call → List Text
removed_dirs [] = []
removed_dirs (created dir ∷ calls) = removed_dirs calls
removed_dirs (create_failed dir ∷ calls) = removed_dirs calls
removed_dirs (ran spawn behaviour ∷ calls) = removed_dirs calls
removed_dirs (wrote path text ∷ calls) = removed_dirs calls
removed_dirs (write_failed path ∷ calls) = removed_dirs calls
removed_dirs (removed_file path ∷ calls) = removed_dirs calls
removed_dirs (remove_failed path ∷ calls) = removed_dirs calls
removed_dirs (removed_dir path ∷ calls) = path ∷ removed_dirs calls

abbrev pub without_first : Text → List Text → List Text
without_first path [] = []
without_first path (p ∷ l) = if p == path then l else p ∷ without_first path l

-- The files that are left of those written, given those that were left before.
unfoldable pub left_files : List Text → List Call → List Text
left_files l [] = l
left_files l (created dir ∷ calls) = left_files l calls
left_files l (create_failed dir ∷ calls) = left_files l calls
left_files l (ran spawn behaviour ∷ calls) = left_files l calls
left_files l (wrote path text ∷ calls) = left_files (path ∷ l) calls
left_files l (write_failed path ∷ calls) = left_files l calls
left_files l (removed_file path ∷ calls) = left_files (without_first path l) calls
left_files l (remove_failed path ∷ calls) = left_files l calls
left_files l (removed_dir path ∷ calls) = left_files l calls

-- The files whose removal failed.
unfoldable pub stuck_files : List Call → List Text
stuck_files [] = []
stuck_files (created dir ∷ calls) = stuck_files calls
stuck_files (create_failed dir ∷ calls) = stuck_files calls
stuck_files (ran spawn behaviour ∷ calls) = stuck_files calls
stuck_files (wrote path text ∷ calls) = stuck_files calls
stuck_files (write_failed path ∷ calls) = stuck_files calls
stuck_files (removed_file path ∷ calls) = stuck_files calls
stuck_files (remove_failed path ∷ calls) = path ∷ stuck_files calls
stuck_files (removed_dir path ∷ calls) = stuck_files calls

pub removed_dirs-append :
    (xs ys : List Call) → removed_dirs (xs ++ ys) ≡ removed_dirs xs ++ removed_dirs ys
unfolding removed_dirs
removed_dirs-append [] ys = refl
removed_dirs-append (created dir ∷ xs) ys = removed_dirs-append xs ys
removed_dirs-append (create_failed dir ∷ xs) ys = removed_dirs-append xs ys
removed_dirs-append (ran spawn behaviour ∷ xs) ys = removed_dirs-append xs ys
removed_dirs-append (wrote path text ∷ xs) ys = removed_dirs-append xs ys
removed_dirs-append (write_failed path ∷ xs) ys = removed_dirs-append xs ys
removed_dirs-append (removed_file path ∷ xs) ys = removed_dirs-append xs ys
removed_dirs-append (remove_failed path ∷ xs) ys = removed_dirs-append xs ys
removed_dirs-append (removed_dir path ∷ xs) ys = ap (λ l. path ∷ l) (removed_dirs-append xs ys)

pub left_files-append :
    (l : List Text) (xs ys : List Call) → left_files l (xs ++ ys) ≡ left_files (left_files l xs) ys
unfolding left_files
left_files-append l [] ys = refl
left_files-append l (created dir ∷ xs) ys = left_files-append l xs ys
left_files-append l (create_failed dir ∷ xs) ys = left_files-append l xs ys
left_files-append l (ran spawn behaviour ∷ xs) ys = left_files-append l xs ys
left_files-append l (wrote path text ∷ xs) ys = left_files-append (path ∷ l) xs ys
left_files-append l (write_failed path ∷ xs) ys = left_files-append l xs ys
left_files-append l (removed_file path ∷ xs) ys = left_files-append (without_first path l) xs ys
left_files-append l (remove_failed path ∷ xs) ys = left_files-append l xs ys
left_files-append l (removed_dir path ∷ xs) ys = left_files-append l xs ys

pub removed_dirs-prepared :
    (xs : List Call) → all_calls is_preparation xs ≡ true → removed_dirs xs ≡ []
unfolding removed_dirs
removed_dirs-prepared [] h = refl
removed_dirs-prepared (created dir ∷ xs) h = removed_dirs-prepared xs h
removed_dirs-prepared (create_failed dir ∷ xs) h = removed_dirs-prepared xs h
removed_dirs-prepared (ran spawn behaviour ∷ xs) h = removed_dirs-prepared xs h
removed_dirs-prepared (wrote path text ∷ xs) h = cc
removed_dirs-prepared (write_failed path ∷ xs) h = removed_dirs-prepared xs h
removed_dirs-prepared (removed_file path ∷ xs) h = cc
removed_dirs-prepared (remove_failed path ∷ xs) h = cc
removed_dirs-prepared (removed_dir path ∷ xs) h = cc

pub left_files-prepared :
    (l : List Text) (xs : List Call) → all_calls is_preparation xs ≡ true → left_files l xs ≡ l
unfolding left_files
left_files-prepared l [] h = refl
left_files-prepared l (created dir ∷ xs) h = left_files-prepared l xs h
left_files-prepared l (create_failed dir ∷ xs) h = left_files-prepared l xs h
left_files-prepared l (ran spawn behaviour ∷ xs) h = left_files-prepared l xs h
left_files-prepared l (wrote path text ∷ xs) h = cc
left_files-prepared l (write_failed path ∷ xs) h = left_files-prepared l xs h
left_files-prepared l (removed_file path ∷ xs) h = cc
left_files-prepared l (remove_failed path ∷ xs) h = cc
left_files-prepared l (removed_dir path ∷ xs) h = cc

pub stuck_files-append :
    (xs ys : List Call) → stuck_files (xs ++ ys) ≡ stuck_files xs ++ stuck_files ys
unfolding stuck_files
stuck_files-append [] ys = refl
stuck_files-append (created dir ∷ xs) ys = stuck_files-append xs ys
stuck_files-append (create_failed dir ∷ xs) ys = stuck_files-append xs ys
stuck_files-append (ran spawn behaviour ∷ xs) ys = stuck_files-append xs ys
stuck_files-append (wrote path text ∷ xs) ys = stuck_files-append xs ys
stuck_files-append (write_failed path ∷ xs) ys = stuck_files-append xs ys
stuck_files-append (removed_file path ∷ xs) ys = stuck_files-append xs ys
stuck_files-append (remove_failed path ∷ xs) ys = ap (λ l. path ∷ l) (stuck_files-append xs ys)
stuck_files-append (removed_dir path ∷ xs) ys = stuck_files-append xs ys

pub stuck_files-prepared :
    (xs : List Call) → all_calls is_preparation xs ≡ true → stuck_files xs ≡ []
unfolding stuck_files
stuck_files-prepared [] h = refl
stuck_files-prepared (created dir ∷ xs) h = stuck_files-prepared xs h
stuck_files-prepared (create_failed dir ∷ xs) h = stuck_files-prepared xs h
stuck_files-prepared (ran spawn behaviour ∷ xs) h = stuck_files-prepared xs h
stuck_files-prepared (wrote path text ∷ xs) h = cc
stuck_files-prepared (write_failed path ∷ xs) h = stuck_files-prepared xs h
stuck_files-prepared (removed_file path ∷ xs) h = cc
stuck_files-prepared (remove_failed path ∷ xs) h = cc
stuck_files-prepared (removed_dir path ∷ xs) h = cc

pub without_first_self : (path : Text) (l : List Text) → without_first path (path ∷ l) ≡ l
without_first_self path l = rw (==_refl path) refl

module _ {V : Type 0} (sys : System V) where
  -- A command that ran ended with 0, and a write or the making of a directory without an error.
  abbrev pub succeeded : Call → Bool
  succeeded (created dir) = true
  succeeded (create_failed dir) = false
  succeeded (ran spawn behaviour) = zero_exit (result_of sys.from_str sys.decimal spawn behaviour)
  succeeded (wrote path text) = true
  succeeded (write_failed path) = false
  succeeded (removed_file path) = true
  succeeded (remove_failed path) = true
  succeeded (removed_dir path) = true

  -- After a call that did not succeed, no command is run.
  unfoldable pub halts : List Call → Bool
  halts [] = true
  halts (c ∷ calls) = (succeeded c || all_calls is_quiet calls) && halts calls

  pub halts-succeeded :
      (xs ys : List Call)
      → all_calls succeeded xs ≡ true
      → halts ys ≡ true
      → halts (xs ++ ys) ≡ true
  unfolding halts
  halts-succeeded [] ys h k = k
  halts-succeeded (c ∷ xs) ys h k = ground (arith, halts-succeeded xs ys)

  pub halts_quiet : (xs : List Call) → all_calls is_quiet xs ≡ true → halts xs ≡ true
  unfolding halts
  halts_quiet [] h = refl
  halts_quiet (c ∷ xs) h = ground (arith, halts_quiet xs)

  pub halts-append :
      (xs ys : List Call) → halts xs ≡ true → all_calls is_quiet ys ≡ true → halts (xs ++ ys) ≡ true
  unfolding halts
  halts-append [] ys h k = halts_quiet ys k
  halts-append (c ∷ xs) ys h k = ground (arith, halts-append xs ys, all_calls-append is_quiet xs ys)
