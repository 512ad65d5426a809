-- ===== src/Log/Sync/Honest.antt =====
-- What a step of the synchronisation keeps, and what it may send.
use tasknexus_client_agent.Prelude.{
  ℕ, zero, if-both, min, suc, length, ltb, ◌≤◌, ℤ, Option, none, some, List, [], ◌∷◌, ◌++◌, ◌≡◌,
  refl, ap, sym, ◌∙◌, ◌⊎◌, inl, inr, arith, take, drop, append-nil, or_else,
}
use tasknexus_client_agent.Text.{Text}
use tasknexus_client_agent.Utf8.{Bytes}
use tasknexus_client_agent.Error.{AgentError, Result}
use tasknexus_client_agent.Client.Message.{
  ClientMessage, task_log_append, task_log_active, task_log_active_clear,
}
use tasknexus_client_agent.Client.Connection.{
  AgentClient, get_task_log_ack, Channel, QueuedLogMessage, Step, send_queued,
}
use tasknexus_client_agent.Log.Writer.{Writer, Done, written}
use tasknexus_client_agent.Log.Chunk.{decode_prefix, read_utf8_chunk}
use tasknexus_client_agent.Log.State.{TaskLogSyncState, PendingActiveEvent, set, clear}
use tasknexus_client_agent.Log.Sync.{Synced, raise_ack, drop_inflight, reaches, reconcile_ack}

-- What the messages about a log may tell: its task, its bytes, how many of them are complete
-- lines, and the display that waits.
pub record Facts : Type 0 where
  pub task : ℤ
  pub bytes : Bytes
  pub committed : ℕ
  pub pending : Option PendingActiveEvent

abbrev pub facts : TaskLogSyncState → Facts
facts s = record {
  task = s.task_id;
  bytes = written s.writer;
  committed = s.committed_offset;
  pending = s.pending_active_event;
}

abbrev pub settled : Facts → Facts
settled f = record f { pending = none }

-- A chunk of what has reached the file is a chunk of what was written.
chunk_of-append :
    (m start : ℕ) (file buffer : Bytes)
    → take (length (take m (drop start file))) (drop start (file ++ buffer))
      ≡ take m (drop start file)
chunk_of-append zero zero [] buffer = refl
chunk_of-append (suc m) zero [] buffer = refl
chunk_of-append zero (suc start) [] buffer = refl
chunk_of-append (suc m) (suc start) [] buffer = refl
chunk_of-append zero zero (x ∷ file) buffer = refl
chunk_of-append (suc m) zero (x ∷ file) buffer =
    ap (λ l. x ∷ l) (chunk_of-append m zero file buffer)
chunk_of-append m (suc start) (x ∷ file) buffer = chunk_of-append m start file buffer

-- The text is what some bytes behind the offset decode to.
abbrev pub IsChunk : Bytes → ℕ → Text → Type 0
IsChunk bytes start content =
    (size : ℕ) × (n : ℕ) × (decode_prefix (take size (drop start bytes)) ≡ (content, n))

-- What is read of the file is a chunk of what was written.
pub read-IsChunk :
    (w : Writer) (limit : Option ℕ) (start size : ℕ) (content : Text) (n : ℕ)
    → read_utf8_chunk limit w.file start size ≡ some (content, n)
    → IsChunk (written w) start content
unfolding read_utf8_chunk
read-IsChunk w none start size content n h = cc
read-IsChunk w (some limit) start size content n h = (
  length (take (min limit size) (drop start w.file)),
  n,
  ap decode_prefix (chunk_of-append (min limit size) start w.file w.buffer)
      ∙ ap (λ o. or_else o ([], 0)) h,
)

-- What an acknowledgement leaves.
abbrev pub IsRaised : TaskLogSyncState → TaskLogSyncState → Type 0
IsRaised s r = (facts r ≡ facts s) × (s.acked_offset ≤ r.acked_offset)

raise_ack-IsRaised : (a : ℕ) (s : TaskLogSyncState) → IsRaised s (raise_ack a s)
unfolding raise_ack
raise_ack-IsRaised a s =
    if-both (IsRaised s) (ltb s.acked_offset a) (λ h. (refl, ground arith))
      (λ h. (refl, omega arith))

drop_inflight-IsRaised : (s : TaskLogSyncState) → IsRaised s (drop_inflight s)
unfolding drop_inflight
drop_inflight-IsRaised s =
    if-both (IsRaised s) (reaches s.acked_offset s.inflight_append) (λ h. (refl, omega arith))
      (λ h. (refl, omega arith))

module _ {V : Type 0} where
  abbrev pub items_of : Option (Channel (QueuedLogMessage V)) → List (QueuedLogMessage V)
  items_of none = []
  items_of (some tx) = tx.items

  -- What waits in the log channel.
  abbrev pub log_items : AgentClient V → List (QueuedLogMessage V)
  log_items c = items_of c.log_sender

  -- A message about the log whose bytes are `bytes`: a chunk is what the bytes behind its offset
  -- decode to, and a display stands behind all the bytes.
  -- A message agrees with the log: a chunk is what the bytes behind its offset decode to, and a
  -- display stands behind all the complete lines.
  abbrev pub IsTrue : Facts → ClientMessage V → Type 0
  IsTrue f (task_log_append t start content) = (t ≡ f.task) × IsChunk f.bytes start content
  IsTrue f (task_log_active t seq base line is_stderr) =
      (t ≡ f.task)
      × (base ≡ f.committed)
      × (f.pending
          ≡ some (record { seq = seq; kind = set (record { text = line; is_stderr = is_stderr }) }))
  IsTrue f (task_log_active_clear t seq base) =
      (t ≡ f.task) × (base ≡ f.committed) × (f.pending ≡ some (record { seq = seq; kind = clear }))
  IsTrue f _ = ⊥

  abbrev pub AllTrue : Facts → List (QueuedLogMessage V) → Type 0
  AllTrue f [] = Unit
  AllTrue f (m ∷ l) = IsTrue f m.message × AllTrue f l

  -- A step loses no byte, never goes back, and sends only what is true.
  pub record IsHonest (s : TaskLogSyncState) (c : AgentClient V) (r : Synced V) : Type 0 where
    pub same : settled (facts r.1) ≡ settled (facts s)
    pub acked : s.acked_offset ≤ r.1.acked_offset
    pub new : List (QueuedLogMessage V)
    pub sent : log_items r.2 ≡ log_items c ++ new
    pub truth : AllTrue (facts s) new

  -- An honest step that leaves the display as it waits.
  pub record IsQuiet (s : TaskLogSyncState) (c : AgentClient V) (r : Synced V) : Type 0 where
    pub same : facts r.1 ≡ facts s
    pub acked : s.acked_offset ≤ r.1.acked_offset
    pub new : List (QueuedLogMessage V)
    pub sent : log_items r.2 ≡ log_items c ++ new
    pub truth : AllTrue (facts s) new

  -- A send fails and changes nothing, or puts its message at the end of the channel.
  abbrev pub Delivers : ClientMessage V → AgentClient V → Step V → Type 0
  Delivers m c r =
      ((e : AgentError) × (r ≡ (Result.err e, c)))
      ⊎ ((c' : AgentClient V) × (q : QueuedLogMessage V) × (q.message ≡ m)
          × (r ≡ (Result.ok tt, c'))
          × (log_items c' ≡ log_items c ++ q ∷ []))

  Delivers-through :
      (t : ℤ) (m : ClientMessage V) (c : AgentClient V) (items : List (QueuedLogMessage V))
      (closed : Option Text)
      → Delivers m
          (record c { log_sender = some (record { items = items; closed = closed }) })
          (send_queued t m
            (record c { log_sender = some (record { items = items; closed = closed }) }))
  unfolding send_queued
  Delivers-through t m c items none = inr (_, record { task_id = t; message = m }, refl, refl, refl)
  Delivers-through t m c items (some e) = inl (_, refl)

  Delivers-on :
      (t : ℤ) (m : ClientMessage V) (c : AgentClient V) (o : Option (Channel (QueuedLogMessage V)))
      → Delivers m (record c { log_sender = o }) (send_queued t m (record c { log_sender = o }))
  unfolding send_queued
  Delivers-on t m c none = inl (_, refl)
  Delivers-on t m c (some tx) = Delivers-through t m c tx.items tx.closed

  pub send_queued-Delivers :
      (t : ℤ) (m : ClientMessage V) (c : AgentClient V) → Delivers m c (send_queued t m c)
  send_queued-Delivers t m c = Delivers-on t m c c.log_sender

  pub reconcile_ack-IsRaised :
      (c : AgentClient V) (s : TaskLogSyncState) → IsRaised s (reconcile_ack c s)
  unfolding reconcile_ack
  reconcile_ack-IsRaised c s =
      let t = raise_ack (get_task_log_ack s.task_id c) s in
      let first = raise_ack-IsRaised (get_task_log_ack s.task_id c) s in
      let second = drop_inflight-IsRaised t in
      let h = first.1 in let k = second.1 in (second.0 ∙ first.0, omega arith)

  pub stays-IsQuiet :
      (d : Done) (s t : TaskLogSyncState) (c : AgentClient V) → IsRaised s t → IsQuiet s c (d, t, c)
  stays-IsQuiet d s t c h = record {
    same = h.0;
    acked = h.1;
    new = [];
    sent = sym (append-nil (log_items c));
    truth = tt;
  }
