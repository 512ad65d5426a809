-- ===== src/Log/Sync/Offsets.antt =====
-- What one call of `sync_with_server` keeps, and what it sends.
use tasknexus_client_agent.Prelude.{
  ℕ, if-both, ◌≤◌, ℤ, Bool, false, Option, none, some, List, [], ◌∷◌, ◌++◌, ◌≡◌, refl, ap, subst,
  sym, ◌∙◌, inl, inr, arith, append_assoc, is_some, eqb, not, ◌||◌,
}
use tasknexus_client_agent.Text.{Text}
use tasknexus_client_agent.Client.Message.{
  ClientMessage, task_log_active, task_log_active_clear, log_task_id,
}
use tasknexus_client_agent.Client.Connection.{
  AgentClient, QueuedLogMessage, Step, send_log_message, send_task_log_active,
  send_task_log_active_clear,
}
use tasknexus_client_agent.Log.Writer.{ok, failed}
use tasknexus_client_agent.Log.State.{
  TaskLogSyncState, PendingActiveEventKind, PendingActiveEvent, set, clear,
}
use tasknexus_client_agent.Log.Sync.{
  Synced, due_active, send_pending, and_then, SyncEnv, after_send, reconcile_ack, active_if_due,
  sync_with_server,
}
use tasknexus_client_agent.Log.Sync.Quiet.{retry-IsQuiet, append_if_due-IsQuiet}
use tasknexus_client_agent.Log.Sync.Honest.{
  Facts, facts, settled, IsRaised, log_items, IsTrue, AllTrue, IsHonest, IsQuiet, Delivers,
  send_queued-Delivers, reconcile_ack-IsRaised, stays-IsQuiet,
}

caught_up :
    (s : TaskLogSyncState)
    → (is_some s.inflight_append || not (eqb s.acked_offset s.committed_offset)) ≡ false
    → s.acked_offset ≡ s.committed_offset
caught_up s h = ground arith

module _ {V : Type 0} where
  set_active-Delivers :
      (t : ℤ) (seq base : ℕ) (line : Text) (is_stderr : Bool) (c : AgentClient V)
      → Delivers
          (task_log_active t seq base line is_stderr)
          c
          (send_task_log_active t seq base line is_stderr c)
  unfolding send_task_log_active send_log_message log_task_id
  set_active-Delivers t seq base line is_stderr c =
      send_queued-Delivers t (task_log_active t seq base line is_stderr) c

  clear_active-Delivers :
      (t : ℤ) (seq base : ℕ) (c : AgentClient V)
      → Delivers (task_log_active_clear t seq base) c (send_task_log_active_clear t seq base c)
  unfolding send_task_log_active_clear send_log_message log_task_id
  clear_active-Delivers t seq base c = send_queued-Delivers t (task_log_active_clear t seq base) c

  quiet-IsHonest :
      (s : TaskLogSyncState) (c : AgentClient V) (r : Synced V) → IsQuiet s c r → IsHonest s c r
  quiet-IsHonest s c r q = record {
    same = ap settled q.same;
    acked = q.acked;
    new = q.new;
    sent = q.sent;
    truth = q.truth;
  }

  -- A send of the display that waits.
  after_active-IsHonest :
      (m : ClientMessage V) (s t : TaskLogSyncState) (c : AgentClient V) (r : Step V)
      → Delivers m c r
      → settled (facts t) ≡ settled (facts s)
      → s.acked_offset ≤ t.acked_offset
      → IsTrue (facts s) m
      → IsHonest s c (after_send r t s)
  after_active-IsHonest m s t c r (inl (e, h)) same acked true_m =
      subst (λ r'. IsHonest s c (after_send r' t s)) (sym h)
        (quiet-IsHonest s c _ (stays-IsQuiet failed s s c (refl, omega arith)))
  after_active-IsHonest m s t c r (inr (c', q, hq, h, l)) same acked true_m =
      subst (λ r'. IsHonest s c (after_send r' t s)) (sym h)
        record {
          same = same;
          acked = acked;
          new = q ∷ [];
          sent = l;
          truth = (subst (IsTrue (facts s)) (sym hq) true_m, tt);
        }

  send_kind-IsHonest :
      (seq : ℕ) (kind : PendingActiveEventKind) (s : TaskLogSyncState) (c : AgentClient V)
      → s.pending_active_event ≡ some (record { seq = seq; kind = kind })
      → s.acked_offset ≡ s.committed_offset
      → IsHonest s c (send_pending (some (record { seq = seq; kind = kind })) s c)
  send_kind-IsHonest seq (set visible) s c h e =
      after_active-IsHonest
        (task_log_active s.task_id seq s.acked_offset visible.text visible.is_stderr) s _ c _
        (set_active-Delivers s.task_id seq s.acked_offset visible.text visible.is_stderr c) refl
        (omega arith) (refl, e, h)
  send_kind-IsHonest seq clear s c h e =
      after_active-IsHonest (task_log_active_clear s.task_id seq s.acked_offset) s _ c _
        (clear_active-Delivers s.task_id seq s.acked_offset c) refl (omega arith) (refl, e, h)

  send_pending-IsHonest :
      (p : Option PendingActiveEvent) (s : TaskLogSyncState) (c : AgentClient V)
      → s.pending_active_event ≡ p
      → s.acked_offset ≡ s.committed_offset
      → IsHonest s c (send_pending p s c)
  send_pending-IsHonest none s c h e =
      quiet-IsHonest s c _ (stays-IsQuiet ok s s c (refl, omega arith))
  send_pending-IsHonest (some pending) s c h e = send_kind-IsHonest pending.seq pending.kind s c h e

  active_if_due-IsHonest :
      (env : SyncEnv) (force : Bool) (s : TaskLogSyncState) (c : AgentClient V)
      → IsHonest s c (active_if_due env force s c)
  unfolding active_if_due
  active_if_due-IsHonest env force s c =
      let quiet = quiet-IsHonest s c (ok, s, c) (stays-IsQuiet ok s s c (refl, omega arith)) in
      if-both (IsHonest s c)
        (is_some s.inflight_append || not (eqb s.acked_offset s.committed_offset)) (λ b. quiet)
        (λ b.
          if-both (IsHonest s c) (due_active env force s.last_active_change)
            (λ d. send_pending-IsHonest s.pending_active_event s c refl (caught_up s b))
            (λ d. quiet))

  AllTrue-append :
      (f : Facts) (l m : List (QueuedLogMessage V)) → AllTrue f l → AllTrue f m → AllTrue f (l ++ m)
  AllTrue-append f [] m h k = k
  AllTrue-append f (x ∷ l) m (a, h) k = (a, AllTrue-append f l m h k)

  -- A quiet step, and an honest one where it succeeds.
  and_then-IsHonest :
      (s : TaskLogSyncState) (c : AgentClient V) (r : Synced V)
      (rest : TaskLogSyncState → AgentClient V → Synced V)
      → IsQuiet s c r
      → ((t : TaskLogSyncState) (c' : AgentClient V) → IsHonest t c' (rest t c'))
      → IsHonest s c (and_then r rest)
  and_then-IsHonest s c (failed, t, c') rest q h = quiet-IsHonest s c _ q
  and_then-IsHonest s c (ok, t, c') rest q h =
      let next = h t c' in
      let k = q.acked in
      let l = next.acked in
      record {
        same = next.same ∙ ap settled q.same;
        acked = omega arith;
        new = q.new ++ next.new;
        sent =
            next.sent ∙ ap (λ x. x ++ next.new) q.sent ∙ append_assoc (log_items c) q.new next.new;
        truth =
            AllTrue-append (facts s) q.new next.new q.truth
              (subst (λ f. AllTrue f next.new) q.same next.truth);
      }

  raised-IsHonest :
      (s t : TaskLogSyncState) (c : AgentClient V) (r : Synced V)
      → IsRaised s t
      → IsHonest t c r
      → IsHonest s c r
  raised-IsHonest s t c r raised q =
      let h = raised.1 in
      let k = q.acked in
      record {
        same = q.same ∙ ap settled raised.0;
        acked = omega arith;
        new = q.new;
        sent = q.sent;
        truth = subst (λ f. AllTrue f q.new) raised.0 q.truth;
      }

  -- A synchronisation with the server, whether it succeeds, fails or has nothing to do, and however
  -- the read of the log file and its flush end: no byte of the log is lost, the number of
  -- complete bytes stays, and the acknowledged offset never goes back; what it puts into the log
  -- channel, behind what is there, are chunks of this task's log, each of which is what some bytes behind
  -- its own offset decode to, and the display that waited, sent with the offset behind all complete lines.
  pub sync_with_server-IsHonest :
      (env : SyncEnv) (force_append force_active : Bool) (s : TaskLogSyncState) (c : AgentClient V)
      → IsHonest s c (sync_with_server env force_append force_active s c)
  unfolding sync_with_server
  sync_with_server-IsHonest env force_append force_active s c =
      raised-IsHonest s (reconcile_ack c s) c _ (reconcile_ack-IsRaised c s) (
        and_then-IsHonest (reconcile_ack c s) c _ _ (retry-IsQuiet env (reconcile_ack c s) c)
          (λ s1 c1.
            and_then-IsHonest s1 c1 _ _ (append_if_due-IsQuiet env force_append s1 c1) (λ s2 c2.
              raised-IsHonest s2 (reconcile_ack c2 s2) c2 _ (reconcile_ack-IsRaised c2 s2)
                (active_if_due-IsHonest env force_active (reconcile_ack c2 s2) c2))))
