-- ===== src/AgentLog.antt =====
-- `RotatingAgentLog` of agent/src/main.rs: the agent's own log, which is archived at each start and
-- then every 24 hours.
pub mod Archives
use tasknexus_client_agent.Prelude.{
  ℕ, ◌+◌, ◌-◌, ◌*◌, Bool, true, false, ◌&&◌, ◌||◌, not, Option, none, some, List, [], ◌∷◌, ◌++◌,
  if◌then◌else◌, ltb, or_else, is_some, Map, get, insert, remove, contains_key, text_eq, ◌==◌, ◌⊎◌,
  inl, inr,
}
use tasknexus_client_agent.Text.{Text, codes, starts_with}
use tasknexus_client_agent.Executor.Script.{ends_with, strip_suffix}

-- The files of the log's directory, by their names.
abbrev pub Dir : Type 0
Dir = Map Text Text

-- What the file system and the clocks do at a call: `listed` says whether the directory can be read,
-- `removable` whether a file can be removed, and an open that fails gives its error. `stamp` is
-- the local time in the archive's name, `now` the seconds of the monotonic clock.
pub record Disk : Type 0 where
  pub listed : Bool
  pub removable : Text → Bool
  pub renames : Bool
  pub open_error : Option Text
  pub write_error : Option Text
  pub stamp : Text
  pub now : ℕ

-- The open file is the one that has the log's name, unless a rename took that from it: `file` is the
-- name that it has now.
pub record RotatingAgentLog : Type 0 where
  pub file_name : Text
  pub stem : Text
  pub ext : Text
  pub file : Text
  pub created_at : ℕ
  pub max_age : ℕ

abbrev pub is_archive : Text → Text → Text → Bool
is_archive stem ext name = starts_with (stem ++ codes "_") name && ends_with (codes "." ++ ext) name

abbrev pub without : (Text → Bool) → Dir → Dir
without goes [] = []
without goes ((name, content) ∷ dir) =
    let rest = without goes dir in if goes name then rest else (name, content) ∷ rest

abbrev pub is_removed : Disk → Text → Text → Text → Bool
is_removed disk stem ext name = is_archive stem ext name && disk.removable name

unfoldable pub cleanup_archives : Disk → Text → Text → Dir → Dir
cleanup_archives disk stem ext dir =
    if disk.listed then without (is_removed disk stem ext) dir else dir

abbrev pub archive_name : Disk → Text → Text → Text
archive_name disk stem ext = stem ++ (codes "_" ++ (disk.stamp ++ (codes "." ++ ext)))

abbrev pub moved : Option Text → Text → Text → Dir → Dir
moved none source target dir = dir
moved (some content) source target dir = insert target content (remove source dir)

-- `rename`, whose error is ignored
abbrev pub rename : Disk → Text → Text → Dir → Dir
rename disk source target dir =
    if disk.renames then moved (get source dir) source target dir else dir

-- `create(true).append(true).open`
abbrev pub opened : Text → Dir → Dir
opened name dir = if contains_key name dir then dir else insert name [] dir

-- The names that `new` takes out of the log's path, each with its default.
pub record LogNames : Type 0 where
  pub file_name : Option Text
  pub file_stem : Option Text
  pub extension : Option Text

abbrev pub name_of : LogNames → Text
name_of names = or_else names.file_name (codes "agent.log")

abbrev pub stem_of : LogNames → Text
stem_of names = or_else names.file_stem (codes "agent")

abbrev pub ext_of : LogNames → Text
ext_of names = or_else names.extension (codes "log")

abbrev pub archived : Disk → Text → Text → Text → Dir → Dir
archived disk name stem ext dir =
    if contains_key name dir then rename disk name (archive_name disk stem ext) dir else dir

abbrev pub open_new : Option Text → Disk → LogNames → Dir → (Text ⊎ RotatingAgentLog) × Dir
open_new (some e) disk names dir = (inl e, dir)
open_new none disk names dir = (
  inr (record {
    file_name = name_of names;
    stem = stem_of names;
    ext = ext_of names;
    file = name_of names;
    created_at = disk.now;
    max_age = 24 * 60 * 60;
  }),
  opened (name_of names) dir,
)

unfoldable pub new_log : Disk → LogNames → Dir → (Text ⊎ RotatingAgentLog) × Dir
unfolding cleanup_archives
new_log disk names dir = open_new disk.open_error disk names (
    archived disk (name_of names) (stem_of names) (ext_of names)
      (cleanup_archives disk (stem_of names) (ext_of names) dir))

-- The name that the open file has after a rename of the log's name.
abbrev pub followed : Disk → RotatingAgentLog → Dir → Text
followed disk l dir =
    if disk.renames && contains_key l.file_name dir && (l.file == l.file_name)
    then archive_name disk l.stem l.ext
    else l.file

unfoldable pub rotate_if_needed : Disk → RotatingAgentLog → Dir → RotatingAgentLog × Dir
unfolding cleanup_archives
rotate_if_needed disk l dir =
    if ltb (disk.now - l.created_at) l.max_age
    then (l, dir)
    else let cleaned = cleanup_archives disk l.stem l.ext dir in
      let renamed = rename disk l.file_name (archive_name disk l.stem l.ext) cleaned in
      elim disk.open_error [
        | some e ↦ (record l { file = followed disk l cleaned }, renamed)
        | none ↦
            (record l { file = l.file_name; created_at = disk.now }, opened l.file_name renamed)
      ]

abbrev pub appended : Option Text → Text → Text → Dir → Dir
appended none name buf dir = dir
appended (some content) name buf dir = insert name (content ++ buf) dir

-- `write` of a whole buffer
unfoldable pub write_log : Disk → Text → RotatingAgentLog → Dir → RotatingAgentLog × Dir
unfolding rotate_if_needed
write_log disk buf l dir =
    let rotated = rotate_if_needed disk l dir in
    elim disk.write_error [
      | some e ↦ rotated
      | none ↦ (rotated.0, appended (get rotated.0.file rotated.1) rotated.0.file buf rotated.1)
    ]
