-- ===== src/Log/State/Typing.antt =====
-- A line that is being typed: its buffer and its display.
use tasknexus_client_agent.Prelude.{
  ℕ, Bool, true, false, Option, none, some, [], ◌∷◌, ◌++◌, ◌≡◌, refl, ap, ◌∙◌, if◌then◌else◌, eqb,
  arith, is_empty, text_beq_iff,
}
use tasknexus_client_agent.Text.{Text}
use tasknexus_client_agent.Log.Writer.{Writer, ok}
use tasknexus_client_agent.Log.State.{
  Now, VisibleLine, TaskLogSyncState, same_display, update_active_display,
  refresh_active_from_buffer, build_visible_from_buffer, ensure_line_timestamp, start_line,
  ingest_char, line_text, newline,
}

pub same_display-eq : (a b : Option VisibleLine) → same_display a b ≡ true → a ≡ b
same_display-eq none none h = refl
same_display-eq none (some b) h = cc
same_display-eq (some a) none h = cc
same_display-eq (some a) (some b) h = ground (arith, text_beq_iff a.text b.text)

-- Whatever was on display, the new line is, and only the display's fields change.
pub active-update :
    (now : Now) (next : Option VisibleLine) (s : TaskLogSyncState)
    → (update_active_display now next s).active_display ≡ next
unfolding update_active_display
active-update now next s = ground (arith, same_display-eq s.active_display next)

-- What a line comes to: the last text, not empty, between two carriage returns. `kept` is the text
-- that stood before the last carriage return.
unfoldable pub settle : Text → Text → Text → Text
settle kept buffer [] = if is_empty buffer then kept else buffer
settle kept buffer (ch ∷ rest) =
    settle (if eqb ch b'\r' then (if is_empty buffer then kept else buffer) else kept)
      (if eqb ch b'\r' then [] else buffer ++ ch ∷ []) rest

-- Between two lines, with a disk that does not fail.
pub record IsFresh (s : TaskLogSyncState) : Type 0 where
  pub timestamp : s.line_timestamp ≡ none
  pub buffer : s.line_buffer ≡ []
  pub display : s.active_display ≡ none
  pub faults : s.writer.faults ≡ []

-- Within a line that began at `stamp`.
pub record IsTyping (stamp kept buffer : Text) (e : Bool) (s : TaskLogSyncState) : Type 0 where
  pub timestamp : s.line_timestamp ≡ some stamp
  pub line_buffer : s.line_buffer ≡ buffer
  pub source : s.line_is_stderr ≡ e
  pub display :
      s.active_display
      ≡ some (record {
        text = line_text stamp (if is_empty buffer then kept else buffer);
        is_stderr = e;
      })
  pub faults : s.writer.faults ≡ []

abbrev pub typed : Now → Bool → ℕ → TaskLogSyncState → TaskLogSyncState
typed now e ch s =
    let t = start_line e (ensure_line_timestamp now s) in
    refresh_active_from_buffer now (record t { line_buffer = t.line_buffer ++ ch ∷ [] })

pub ingest-plain :
    (now : Now) (e : Bool) (ch : ℕ) (s : TaskLogSyncState)
    → eqb ch b'\r' ≡ false
    → eqb ch newline ≡ false
    → ingest_char now e ch s ≡ (ok, typed now e ch s)
ingest-plain now e ch s h k = unfold ingest_char in rw (h, k)

-- What a refresh leaves alone.
refresh-frame :
    (now : Now) (s : TaskLogSyncState)
    → ((refresh_active_from_buffer now s).line_timestamp ≡ s.line_timestamp)
      × ((refresh_active_from_buffer now s).line_buffer ≡ s.line_buffer)
      × ((refresh_active_from_buffer now s).line_is_stderr ≡ s.line_is_stderr)
      × ((refresh_active_from_buffer now s).writer ≡ s.writer)
      × ((refresh_active_from_buffer now s).committed_offset ≡ s.committed_offset)
unfolding refresh_active_from_buffer
refresh-frame now s = ground arith

refresh-display :
    (now : Now) (s : TaskLogSyncState)
    → (refresh_active_from_buffer now s).active_display ≡ build_visible_from_buffer s
refresh-display now s =
    unfold refresh_active_from_buffer in active-update now (build_visible_from_buffer s) s

visible-buffer :
    (stamp : Text) (e : Bool) (t : TaskLogSyncState)
    → t.line_timestamp ≡ some stamp
    → t.line_is_stderr ≡ e
    → build_visible_from_buffer t
      ≡ some (record { text = line_text stamp t.line_buffer; is_stderr = e })
unfolding build_visible_from_buffer
visible-buffer stamp e t h k = ground arith

refresh-IsTyping :
    (now : Now) (stamp kept buffer : Text) (e : Bool) (t : TaskLogSyncState)
    → t.line_timestamp ≡ some stamp
    → t.line_buffer ≡ buffer
    → is_empty buffer ≡ false
    → t.line_is_stderr ≡ e
    → t.writer.faults ≡ []
    → IsTyping stamp kept buffer e (refresh_active_from_buffer now t)
refresh-IsTyping now stamp kept buffer e t h b n k f =
    let (stamps, buffers, sources, writers, offsets) = refresh-frame now t in
    record {
      timestamp = stamps ∙ h;
      line_buffer = buffers ∙ b;
      source = sources ∙ k;
      display =
          refresh-display now t
          ∙ visible-buffer stamp e t h k
          ∙ rw n (ap (λ l. some (record { text = line_text stamp l; is_stderr = e })) b);
      faults = ap (λ (w : Writer). w.faults) writers ∙ f;
    }

is_empty-snoc : (l : Text) (ch : ℕ) → is_empty (l ++ ch ∷ []) ≡ false
is_empty-snoc [] ch = refl
is_empty-snoc (x ∷ l) ch = refl

abbrev extended : Now → Bool → ℕ → TaskLogSyncState → TaskLogSyncState
extended now e ch s =
    let t = start_line e (ensure_line_timestamp now s) in
    record t { line_buffer = t.line_buffer ++ ch ∷ [] }

module _ (now : Now) (e : Bool) (ch : ℕ) (s : TaskLogSyncState) where
  pub typed-frame :
      ((typed now e ch s).writer ≡ s.writer)
      × ((typed now e ch s).committed_offset ≡ s.committed_offset)
  typed-frame =
      let (a, b, c, d, f) = refresh-frame now (extended now e ch s) in
      (
        d ∙ unfold start_line ensure_line_timestamp in ground arith,
        f ∙ unfold start_line ensure_line_timestamp in ground arith,
      )

  pub first_char : IsFresh s → IsTyping now.stamp [] (ch ∷ []) e (typed now e ch s)
  unfolding start_line ensure_line_timestamp
  first_char v =
      refresh-IsTyping now now.stamp [] (ch ∷ []) e (extended now e ch s) (ground arith)
        (ground arith) refl (ground arith) (ground arith)

  pub next_char :
      (stamp kept buffer : Text)
      → IsTyping stamp kept buffer e s
      → IsTyping stamp kept (buffer ++ ch ∷ []) e (typed now e ch s)
  unfolding start_line ensure_line_timestamp
  next_char stamp kept buffer v =
      refresh-IsTyping now stamp kept (buffer ++ ch ∷ []) e (extended now e ch s) (ground arith)
        (ground arith) (is_empty-snoc buffer ch) (ground arith) (ground arith)

-- A carriage return keeps the line on display and empties the buffer.
abbrev pub returned : Now → TaskLogSyncState → TaskLogSyncState
returned now s =
    if is_empty s.line_buffer
    then s
    else record (refresh_active_from_buffer now s) { line_buffer = [] }

pub ingest-return :
    (now : Now) (e : Bool) (ch : ℕ) (s : TaskLogSyncState)
    → eqb ch b'\r' ≡ true
    → ingest_char now e ch s ≡ (ok, returned now s)
unfolding ingest_char
ingest-return now e ch s h = rw h (ground arith)

returned-empty : (now : Now) (s : TaskLogSyncState) → s.line_buffer ≡ [] → returned now s ≡ s
returned-empty now s h = let e : is_empty s.line_buffer ≡ true = ap is_empty h in rw e

returned-typed :
    (now : Now) (s : TaskLogSyncState) (x : ℕ) (buffer : Text)
    → s.line_buffer ≡ x ∷ buffer
    → returned now s ≡ record (refresh_active_from_buffer now s) { line_buffer = [] }
returned-typed now s x buffer h = let e : is_empty s.line_buffer ≡ false = ap is_empty h in rw e

pub return-IsTyping :
    (now : Now) (e : Bool) (s : TaskLogSyncState) (stamp kept buffer : Text)
    → IsTyping stamp kept buffer e s
    → IsTyping stamp (if is_empty buffer then kept else buffer) [] e (returned now s)
      × ((returned now s).writer ≡ s.writer)
      × ((returned now s).committed_offset ≡ s.committed_offset)
return-IsTyping now e s stamp kept [] v = rw (returned-empty now s v.line_buffer) (v, refl, refl)
return-IsTyping now e s stamp kept (x ∷ buffer) v =
    let r =
      refresh-IsTyping now stamp kept (x ∷ buffer) e s v.timestamp v.line_buffer refl v.source
        v.faults in
    let (stamps, buffers, sources, writers, offsets) = refresh-frame now s in
    rw (returned-typed now s x buffer v.line_buffer) (
      record {
        timestamp = r.timestamp;
        line_buffer = refl;
        source = r.source;
        display = r.display;
        faults = r.faults;
      },
      writers,
      offsets,
    )
