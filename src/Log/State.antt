-- ===== src/Log/State.antt =====
-- `TaskLogSyncState` of agent/src/main.rs: the lines of a task's output.
pub mod Lines
pub mod Typing
use tasknexus_client_agent.Prelude.{
  ℕ, zero, suc, ◌+◌, ◌%◌, ◌^◌, ℤ, Bool, true, false, ◌&&◌, Option, none, some, List, [], ◌∷◌, ◌++◌,
  if◌then◌else◌, eqb, text_eq, ◌==◌, length, is_empty, or_else, is_some, text_beq,
}
use tasknexus_client_agent.Text.{Text, codes}
use tasknexus_client_agent.Utf8.{encode}
use tasknexus_client_agent.Log.Writer.{Writer, Fault, Done, ok, failed, new_writer, write_all}

-- A reading of the clocks: `Local::now()` as `format!` writes it, and `Instant::now()` in
-- milliseconds.
pub record Now : Type 0 where
  pub stamp : Text
  pub at : ℕ

pub record VisibleLine : Type 0 where
  pub text : Text
  pub is_stderr : Bool

pub data PendingActiveEventKind : Type 0 where
  set : VisibleLine → PendingActiveEventKind
  clear : PendingActiveEventKind

pub record PendingActiveEvent : Type 0 where
  pub seq : ℕ
  pub kind : PendingActiveEventKind

pub record InflightAppend : Type 0 where
  pub start_offset : ℕ
  pub end_offset : ℕ
  pub sent_at : ℕ
  pub connection_generation : ℕ

pub record TaskLogSyncState : Type 0 where
  pub task_id : ℤ
  pub local_log_path : Text
  pub writer : Writer
  pub committed_offset : ℕ
  pub acked_offset : ℕ
  pub line_timestamp : Option Text
  pub line_buffer : Text
  pub line_is_stderr : Bool
  pub active_display : Option VisibleLine
  pub pending_active_event : Option PendingActiveEvent
  pub inflight_append : Option InflightAppend
  pub next_active_seq : ℕ
  pub last_append_flush : ℕ
  pub last_active_change : Option ℕ

-- `new`, once the file is created; its faults are the environment's.
unfoldable pub new_state : ℤ → Text → List Fault → Now → TaskLogSyncState
new_state task_id path faults now = record {
  task_id = task_id;
  local_log_path = path;
  writer = new_writer faults;
  committed_offset = 0;
  acked_offset = 0;
  line_timestamp = none;
  line_buffer = [];
  line_is_stderr = false;
  active_display = none;
  pending_active_event = none;
  inflight_append = none;
  next_active_seq = 0;
  last_append_flush = now.at;
  last_active_change = none;
}

abbrev pub bool_beq : Bool → Bool → Bool
bool_beq true b = b
bool_beq false true = false
bool_beq false false = true

-- The derived `==` of `Option<VisibleLine>`.
abbrev pub same_display : Option VisibleLine → Option VisibleLine → Bool
same_display none none = true
same_display none (some b) = false
same_display (some a) none = false
same_display (some a) (some b) = text_beq a.text b.text && bool_beq a.is_stderr b.is_stderr

abbrev pub kind_of : Option VisibleLine → PendingActiveEventKind
kind_of none = clear
kind_of (some visible) = set visible

unfoldable pub update_active_display :
    Now → Option VisibleLine → TaskLogSyncState → TaskLogSyncState
update_active_display now next s = if same_display s.active_display next then s else record s {
  active_display = next;
  next_active_seq = (s.next_active_seq + 1) % 2 ^ 64;
  pending_active_event =
      some (record { seq = (s.next_active_seq + 1) % 2 ^ 64; kind = kind_of next });
  last_active_change = some now.at;
}

abbrev pub line_text : Text → Text → Text
line_text stamp content = codes "[" ++ (stamp ++ (codes "] " ++ content))

unfoldable pub build_visible_from_buffer : TaskLogSyncState → Option VisibleLine
build_visible_from_buffer s = elim s.line_timestamp [
  | none ↦ none
  | some stamp ↦
      some (record { text = line_text stamp s.line_buffer; is_stderr = s.line_is_stderr })
]

unfoldable pub build_blank_visible : Now → Bool → TaskLogSyncState → VisibleLine
build_blank_visible now is_stderr s = record {
  text = line_text (or_else s.line_timestamp now.stamp) [];
  is_stderr = is_stderr;
}

unfoldable pub ensure_line_timestamp : Now → TaskLogSyncState → TaskLogSyncState
ensure_line_timestamp now s = record s {
  line_timestamp = some (or_else s.line_timestamp now.stamp);
}

unfoldable pub refresh_active_from_buffer : Now → TaskLogSyncState → TaskLogSyncState
unfolding build_visible_from_buffer update_active_display
refresh_active_from_buffer now s = update_active_display now (build_visible_from_buffer s) s

abbrev pub newline : ℕ
newline = b'\n'

-- What follows the `?` behind `write_all`.
abbrev pub after_write : Now → ℕ → Done × Writer → TaskLogSyncState → Done × TaskLogSyncState
after_write now n (ok, w) s = (
  ok,
  update_active_display now none
      (record s { writer = w; committed_offset = (s.committed_offset + n) % 2 ^ 64 }),
)
after_write now n (failed, w) s = (failed, record s { writer = w })

unfoldable pub commit_visible_line : Now → VisibleLine → TaskLogSyncState → Done × TaskLogSyncState
unfolding write_all update_active_display
commit_visible_line now visible s =
    let bytes = encode (visible.text ++ newline ∷ []) in
    after_write now (length bytes) (write_all bytes s.writer) s

unfoldable pub reset_line_state : TaskLogSyncState → TaskLogSyncState
reset_line_state s = record s { line_timestamp = none; line_buffer = []; line_is_stderr = false }

abbrev pub then_reset : Done × TaskLogSyncState → Done × TaskLogSyncState
then_reset (ok, s) = (ok, reset_line_state s)
then_reset (failed, s) = (failed, s)

-- The line that a newline commits.
unfoldable pub line_at_newline : Now → Bool → TaskLogSyncState → VisibleLine
unfolding build_visible_from_buffer build_blank_visible
line_at_newline now is_stderr s =
    if is_empty s.line_buffer
    then or_else s.active_display (build_blank_visible now is_stderr s)
    else or_else (build_visible_from_buffer s) (build_blank_visible now is_stderr s)

unfoldable pub start_line : Bool → TaskLogSyncState → TaskLogSyncState
start_line is_stderr s =
    if is_empty s.line_buffer then record s { line_is_stderr = is_stderr } else s

-- One turn of the loop of `ingest_chunk`.
unfoldable pub ingest_char : Now → Bool → ℕ → TaskLogSyncState → Done × TaskLogSyncState
unfolding refresh_active_from_buffer commit_visible_line reset_line_state line_at_newline
    ensure_line_timestamp start_line
ingest_char now is_stderr ch s =
    if eqb ch b'\r'
    then (if is_empty s.line_buffer
        then (ok, s)
        else (ok, record (refresh_active_from_buffer now s) { line_buffer = [] }))
    else if eqb ch newline
    then then_reset (commit_visible_line now (line_at_newline now is_stderr s) s)
    else (let t = start_line is_stderr (ensure_line_timestamp now s) in
        (ok, refresh_active_from_buffer now (record t { line_buffer = t.line_buffer ++ ch ∷ [] })))

-- The `?` behind each turn.
abbrev pub continue_with :
    (TaskLogSyncState → Done × TaskLogSyncState) → Done × TaskLogSyncState → Done × TaskLogSyncState
continue_with rest (ok, s) = rest s
continue_with rest (failed, s) = (failed, s)

-- `ingest_chunk`; `clock i` is what the clocks read at the character `i`.
unfoldable pub ingest_chunk : (ℕ → Now) → Text → Bool → TaskLogSyncState → Done × TaskLogSyncState
ingest_chunk clock [] is_stderr s = (ok, s)
ingest_chunk clock (ch ∷ chunk) is_stderr s =
    continue_with (ingest_chunk (λ i. clock (suc i)) chunk is_stderr)
      (ingest_char (clock 0) is_stderr ch s)

-- `finalize_pending` with a line in the buffer: a buffer without a timestamp is dropped.
abbrev pub commit_some : Now → Option VisibleLine → TaskLogSyncState → Done × TaskLogSyncState
commit_some now none s = (ok, s)
commit_some now (some visible) s = commit_visible_line now visible s

unfoldable pub finalize_pending : Now → TaskLogSyncState → Done × TaskLogSyncState
unfolding build_visible_from_buffer commit_visible_line reset_line_state
finalize_pending now s =
    if is_empty s.line_buffer
    then elim s.active_display [
      | none ↦ (ok, s)
      | some visible ↦ then_reset (commit_visible_line now visible s)
    ]
    else then_reset (commit_some now (build_visible_from_buffer s) s)
