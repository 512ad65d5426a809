-- ===== src/Client/Sender/Order.antt =====
-- The fair queue of the send task, through its steps.
use tasknexus_client_agent.Prelude.{
  ℤ, int_eq, ◌≡◌, ◌≢◌, ◌⊎◌, inl, inr, refl, ◌∙◌, Option, none, some, List, [], ◌∷◌, arith, get,
  insert, remove, ◌&&◌, not, Bool-cases, eqb_ℤ_iff,
}
use tasknexus_client_agent.Client.Message.{ClientMessage}
use tasknexus_client_agent.Client.Connection.{QueuedLogMessage}
use tasknexus_client_agent.Client.Queue.{FairLogQueue, new_queue, push, pop}
use tasknexus_client_agent.Client.Sender.{
  Place, drain, serve, select, done, Outcome, SendTask, Event, goes_on, try_recv, serve_next,
  select_log, select_control, advance, react, run,
}

module _ {V : Type 0} where
  pub pop-push_new : (t : ℤ) (m : ClientMessage V) → pop (push t m new_queue) ≡ (some m, new_queue)
  unfolding pop push new_queue get insert remove
  pop-push_new t m = ground (arith, eqb_ℤ_iff t t)

  pub pop-new : pop (new_queue {M = ClientMessage V}) ≡ (none, new_queue)
  unfolding pop new_queue
  pop-new = refl

  -- The fair queue is empty, or holds one message, which leaves it before the task reaches
  -- `select!` again.
  abbrev pub AtMostOne : FairLogQueue (ClientMessage V) → Place → Type 0
  AtMostOne q place =
      (q ≡ new_queue)
      ⊎ ((t : ℤ) × (m : ClientMessage V) × (q ≡ push t m new_queue) × (place ≢ select))

  try_recv-keeps :
      (o : Outcome) (l : List (ClientMessage V)) (s : SendTask V)
      → ((try_recv o l s).fair_log_queue ≡ s.fair_log_queue) × ((try_recv o l s).place ≢ select)
  unfolding try_recv
  try_recv-keeps o [] s = ground arith
  try_recv-keeps o (m ∷ rest) s = ground arith

  pop-empties :
      (q : FairLogQueue (ClientMessage V)) (p : Place) → AtMostOne q p → (pop q).1 ≡ new_queue
  pop-empties q p (inl e) = rw (e, pop-new)
  pop-empties q p (inr (t, m, e, _)) = rw (e, pop-push_new)

  serve_next-empties :
      (o : Outcome) (x : Option (ClientMessage V) × FairLogQueue (ClientMessage V)) (s : SendTask V)
      → x.1 ≡ new_queue
      → (serve_next o x s).fair_log_queue ≡ new_queue
  unfolding serve_next
  serve_next-empties o (none, q) s e = ground arith
  serve_next-empties o (some m, q) s e = ground arith

  select_log-single :
      (l : List (QueuedLogMessage V)) (s : SendTask V)
      → s.fair_log_queue ≡ new_queue
      → AtMostOne (select_log l s).fair_log_queue (select_log l s).place
  unfolding select_log
  select_log-single [] s e = inl (ground arith)
  select_log-single (m ∷ rest) s e = elim (Bool-cases s.log_closed) [
    | inl c ↦ inl (ground arith)
    | inr c ↦ inr (m.task_id, m.message, ground arith, λ p. ground arith)
  ]

  -- The first arm of `select!` leaves the fair queue alone.
  select_control-cases :
      (o : Outcome) (l : List (ClientMessage V)) (s : SendTask V)
      → (select_control o l s ≡ select_log s.log_rx s)
        ⊎ ((select_control o l s).fair_log_queue ≡ s.fair_log_queue)
  unfolding select_control
  select_control-cases o [] s = elim (Bool-cases (not s.control_closed && s.control_senders_gone)) [
    | inl c ↦ inr (ground arith)
    | inr c ↦ inl (ground arith)
  ]
  select_control-cases o (m ∷ rest) s = elim (Bool-cases s.control_closed) [
    | inl c ↦ inl (ground arith)
    | inr c ↦ inr (ground arith)
  ]

  select_control-single :
      (o : Outcome) (l : List (ClientMessage V)) (s : SendTask V)
      → s.fair_log_queue ≡ new_queue
      → AtMostOne (select_control o l s).fair_log_queue (select_control o l s).place
  select_control-single o l s e = elim (select_control-cases o l s) [
    | inl c ↦ rw c (select_log-single s.log_rx s e)
    | inr c ↦ inl (c ∙ e)
  ]

  AtMostOne-keep :
      (q q' : FairLogQueue (ClientMessage V)) (p p' : Place)
      → q' ≡ q
      → p' ≢ select
      → AtMostOne q p
      → AtMostOne q' p'
  AtMostOne-keep q q' p p' e n (inl h) = inl (e ∙ h)
  AtMostOne-keep q q' p p' e n (inr (t, m, h, _)) = inr (t, m, e ∙ h, n)

  pub empty_at_select :
      (q : FairLogQueue (ClientMessage V)) (p : Place) → p ≡ select → AtMostOne q p → q ≡ new_queue
  empty_at_select q p e (inl h) = h
  empty_at_select q p e (inr (t, m, h, n)) = absurd (n e)

  advance-single :
      (p : Place) (o : Outcome) (s : SendTask V)
      → s.place ≡ p
      → AtMostOne s.fair_log_queue s.place
      → AtMostOne (advance p o s).fair_log_queue (advance p o s).place
  unfolding advance
  advance-single drain o s e h =
      let (f, n) = try_recv-keeps o s.control_rx s in
      AtMostOne-keep s.fair_log_queue _ s.place _ f n h
  advance-single serve o s e h =
      inl (serve_next-empties o (pop s.fair_log_queue) s (pop-empties s.fair_log_queue s.place h))
  advance-single select o s e h =
      select_control-single o s.control_rx s (empty_at_select s.fair_log_queue s.place e h)
  advance-single done o s e h = h

  pub react-single :
      (e : Event V) (s : SendTask V)
      → AtMostOne s.fair_log_queue s.place
      → AtMostOne (react e s).fair_log_queue (react e s).place
  unfolding react
  react-single (goes_on o) s h = advance-single s.place o s refl h
  react-single _ s h = h

  -- Whatever arrives and however the writes end, the fair queue of the send task is empty or holds
  -- one message, and it is empty in `select!`.
  pub run-single :
      (events : List (Event V)) (s : SendTask V)
      → AtMostOne s.fair_log_queue s.place
      → AtMostOne (run events s).fair_log_queue (run events s).place
  unfolding run
  run-single [] s h = h
  run-single (e ∷ events) s h = run-single events (react e s) (react-single e s h)
