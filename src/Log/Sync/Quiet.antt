-- ===== src/Log/Sync/Quiet.antt =====
-- The parts of `sync_with_server` that leave the display as it waits.
use tasknexus_client_agent.Prelude.{
  ℕ, if-both, ltb, ℤ, Bool, Option, none, some, [], ◌∷◌, ◌≡◌, refl, ap, subst, sym, ◌∙◌, inl, inr,
  arith, is_some, is_empty, eqb, not, ◌&&◌, ◌||◌,
}
use tasknexus_client_agent.Text.{Text}
use tasknexus_client_agent.Client.Message.{ClientMessage, task_log_append, log_task_id}
use tasknexus_client_agent.Client.Connection.{
  AgentClient, Step, send_log_message, send_task_log_append,
}
use tasknexus_client_agent.Log.Writer.{Writer, Done, ok, failed, written, flush, written-flush}
use tasknexus_client_agent.Log.Chunk.{read_utf8_chunk, max_log_chunk_bytes}
use tasknexus_client_agent.Log.State.{TaskLogSyncState, InflightAppend}
use tasknexus_client_agent.Log.Sync.{
  Synced, saturating_sub, should_resend, should_flush_append, after_flush, resend, send_chunk,
  retry, SyncEnv, after_send, append_if_due, retry_inflight_append_if_needed,
}
use tasknexus_client_agent.Log.Sync.Honest.{
  facts, read-IsChunk, IsRaised, IsTrue, AllTrue, IsQuiet, Delivers, send_queued-Delivers,
  stays-IsQuiet,
}

module _ {V : Type 0} where
  after_send-IsQuiet :
      (m : ClientMessage V) (s t : TaskLogSyncState) (c : AgentClient V) (r : Step V)
      → Delivers m c r
      → IsRaised s t
      → IsTrue (facts s) m
      → IsQuiet s c (after_send r t s)
  after_send-IsQuiet m s t c r (inl (e, h)) raised true_m =
      subst (λ r'. IsQuiet s c (after_send r' t s)) (sym h)
        (stays-IsQuiet failed s s c (refl, omega arith))
  after_send-IsQuiet m s t c r (inr (c', q, hq, h, l)) raised true_m =
      subst (λ r'. IsQuiet s c (after_send r' t s)) (sym h)
        record {
          same = raised.0;
          acked = raised.1;
          new = q ∷ [];
          sent = l;
          truth = (subst (IsTrue (facts s)) (sym hq) true_m, tt);
        }

  IsQuiet-after :
      (s t : TaskLogSyncState) (c : AgentClient V) (r : Synced V)
      → IsRaised s t
      → IsQuiet t c r
      → IsQuiet s c r
  IsQuiet-after s t c r raised q =
      let h = raised.1 in
      let k = q.acked in
      record {
        same = q.same ∙ raised.0;
        acked = omega arith;
        new = q.new;
        sent = q.sent;
        truth = subst (λ f. AllTrue f q.new) raised.0 q.truth;
      }

  after_flushed-IsQuiet :
      (s : TaskLogSyncState) (c : AgentClient V) (rest : TaskLogSyncState → Synced V)
      → ((t : TaskLogSyncState) → IsQuiet t c (rest t))
      → (p : Done × Writer) → written p.1 ≡ written s.writer
      → IsQuiet s c (after_flush p rest s c)
  after_flushed-IsQuiet s c rest h (ok, w) e =
      IsQuiet-after s (record s { writer = w }) c (rest (record s { writer = w }))
        (ap (λ b. record (facts s) { bytes = b }) e, omega arith) (h (record s { writer = w }))
  after_flushed-IsQuiet s c rest h (failed, w) e =
      stays-IsQuiet failed s (record s { writer = w }) c
        (ap (λ b. record (facts s) { bytes = b }) e, omega arith)

  after_flush-IsQuiet :
      (s : TaskLogSyncState) (c : AgentClient V) (rest : TaskLogSyncState → Synced V)
      → ((t : TaskLogSyncState) → IsQuiet t c (rest t))
      → IsQuiet s c (after_flush (flush s.writer) rest s c)
  after_flush-IsQuiet s c rest h =
      after_flushed-IsQuiet s c rest h (flush s.writer) (written-flush s.writer)

  send_append-Delivers :
      (t : ℤ) (start : ℕ) (content : Text) (c : AgentClient V)
      → Delivers (task_log_append t start content) c (send_task_log_append t start content c)
  unfolding send_task_log_append send_log_message log_task_id
  send_append-Delivers t start content c =
      send_queued-Delivers t (task_log_append t start content) c

  resend-IsQuiet :
      (env : SyncEnv) (i : InflightAppend) (s : TaskLogSyncState) (c : AgentClient V) (size : ℕ)
      (read : Option (Text × ℕ))
      → read_utf8_chunk env.read_limit s.writer.file i.start_offset size ≡ read
      → IsQuiet s c (resend env i read s c)
  resend-IsQuiet env i s c size none h = stays-IsQuiet failed s s c (refl, omega arith)
  resend-IsQuiet env i s c size (some (content, n)) h =
      if-both (IsQuiet s c) (eqb n 0 || is_empty content)
        (λ b. stays-IsQuiet ok s s c (refl, omega arith))
        (λ b.
          after_send-IsQuiet (task_log_append s.task_id i.start_offset content) s _ c _
            (send_append-Delivers s.task_id i.start_offset content c) (refl, omega arith)
            (refl, read-IsChunk s.writer env.read_limit i.start_offset size content n h))

  send_chunk-IsQuiet :
      (env : SyncEnv) (s : TaskLogSyncState) (c : AgentClient V) (size : ℕ)
      (read : Option (Text × ℕ))
      → read_utf8_chunk env.read_limit s.writer.file s.acked_offset size ≡ read
      → IsQuiet s c (send_chunk env read s c)
  send_chunk-IsQuiet env s c size none h = stays-IsQuiet failed s s c (refl, omega arith)
  send_chunk-IsQuiet env s c size (some (content, n)) h =
      if-both (IsQuiet s c) (ltb 0 n && not (is_empty content))
        (λ b.
          after_send-IsQuiet (task_log_append s.task_id s.acked_offset content) s _ c _
            (send_append-Delivers s.task_id s.acked_offset content c) (refl, omega arith)
            (refl, read-IsChunk s.writer env.read_limit s.acked_offset size content n h))
        (λ b. stays-IsQuiet ok s s c (refl, omega arith))

  retry_from-IsQuiet :
      (env : SyncEnv) (i : Option InflightAppend) (s : TaskLogSyncState) (c : AgentClient V)
      → IsQuiet s c (retry env i s c)
  retry_from-IsQuiet env none s c = stays-IsQuiet ok s s c (refl, omega arith)
  retry_from-IsQuiet env (some i) s c =
      if-both (IsQuiet s c) (c.connected && should_resend env i c)
        (λ b.
          after_flush-IsQuiet s c _
            (λ t. resend-IsQuiet env i t c (saturating_sub i.end_offset i.start_offset) _ refl))
        (λ b. stays-IsQuiet ok s s c (refl, omega arith))

  pub retry-IsQuiet :
      (env : SyncEnv) (s : TaskLogSyncState) (c : AgentClient V)
      → IsQuiet s c (retry_inflight_append_if_needed env s c)
  unfolding retry_inflight_append_if_needed
  retry-IsQuiet env s c = retry_from-IsQuiet env s.inflight_append s c

  pub append_if_due-IsQuiet :
      (env : SyncEnv) (force : Bool) (s : TaskLogSyncState) (c : AgentClient V)
      → IsQuiet s c (append_if_due env force s c)
  unfolding append_if_due
  append_if_due-IsQuiet env force s c =
      if-both (IsQuiet s c) (not (is_some s.inflight_append) && should_flush_append env force s)
        (λ b.
          after_flush-IsQuiet s c _ (λ t. send_chunk-IsQuiet env t c max_log_chunk_bytes _ refl))
        (λ b. stays-IsQuiet ok s s c (refl, omega arith))
