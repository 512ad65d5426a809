-- ===== src/Client/Sender/Fifo.antt =====
-- The order of the log messages on their way from the log channel to the wire.
use tasknexus_client_agent.Prelude.{
  ℤ, int_eq, ◌≡◌, inl, inr, refl, ap, subst, ◌∙◌, sym, List, [], ◌∷◌, ◌++◌, map, append_assoc,
  append-nil, map-append, arith, get, insert, Map,
}
use tasknexus_client_agent.Client.Message.{ClientMessage}
use tasknexus_client_agent.Client.Connection.{QueuedLogMessage}
use tasknexus_client_agent.Client.Queue.{FairLogQueue, new_queue, queued, push, pop}
use tasknexus_client_agent.Client.Sender.{
  Place, drain, serve, select, done, Sent, control, log, written, SendTask, Event, log_arrives,
  goes_on, start, try_recv, serve_next, select_log, select_control, advance, react, run,
}
use tasknexus_client_agent.Client.Sender.Order.{
  AtMostOne, react-single, empty_at_select, pop-new, pop-push_new,
}

module _ {V : Type 0} where
  -- The log messages among those that were written.
  pub logs : List (Sent V) → List (ClientMessage V)
  logs [] = []
  logs (control m ∷ l) = logs l
  logs (log m ∷ l) = m ∷ logs l

  abbrev held_in : Map ℤ (List (ClientMessage V)) → List (ClientMessage V)
  held_in [] = []
  held_in ((t, l) ∷ qs) = l ++ held_in qs

  abbrev messages : List (QueuedLogMessage V) → List (ClientMessage V)
  messages l = map (λ m. m.message) l

  -- Written, held in the fair queue, waiting in the channel.
  abbrev order : SendTask V → List (ClientMessage V)
  order s = logs s.wire ++ (held_in s.fair_log_queue.queues ++ messages s.log_rx)

  abbrev pub Calm : Event V → Type 0
  Calm (goes_on o) = o ≡ written
  Calm _ = Unit

  pub arrivals : List (Event V) → List (ClientMessage V)
  arrivals [] = []
  arrivals (log_arrives m ∷ l) = m.message ∷ arrivals l
  arrivals (_ ∷ l) = arrivals l

  logs-append : (l k : List (Sent V)) → logs (l ++ k) ≡ logs l ++ logs k
  unfolding logs
  logs-append [] k = refl
  logs-append (control m ∷ l) k = logs-append l k
  logs-append (log m ∷ l) k = ap (λ t. m ∷ t) (logs-append l k)

  try_recv-order :
      (l : List (ClientMessage V)) (s : SendTask V) → order (try_recv written l s) ≡ order s
  unfolding try_recv logs
  try_recv-order [] s = ground arith
  try_recv-order (m ∷ rest) s =
      ground (arith, logs-append s.wire (control m ∷ []), append-nil (logs s.wire))

  logs-control : (m : ClientMessage V) → logs (control m ∷ []) ≡ []
  unfolding logs
  logs-control m = refl

  held-new : held_in new_queue.queues ≡ []
  unfolding new_queue
  held-new = refl

  held-push : (t : ℤ) (m : ClientMessage V) → held_in (push t m new_queue).queues ≡ m ∷ []
  unfolding push new_queue get insert
  held-push t m = refl

  logs-log : (m : ClientMessage V) → logs (log m ∷ []) ≡ m ∷ []
  unfolding logs
  logs-log m = refl

  serve_next-order :
      (q : FairLogQueue (ClientMessage V)) (s : SendTask V)
      → AtMostOne q serve
      → s.fair_log_queue ≡ q
      → order (serve_next written (pop q) s) ≡ order s
  unfolding serve_next
  serve_next-order q s (inl e) h = rw (e, pop-new) (ground (arith, h, e, held-new))
  serve_next-order q s (inr (t, m, e, _)) h =
      rw (e, pop-push_new)
        (ground (
          arith,
          h,
          e,
          held-new,
          held-push t m,
          logs-append s.wire (log m ∷ []),
          logs-log m,
          append_assoc (logs s.wire) (m ∷ []) (messages s.log_rx),
        ))

  select_log-order :
      (l : List (QueuedLogMessage V)) (s : SendTask V)
      → s.fair_log_queue ≡ new_queue
      → s.log_rx ≡ l
      → order (select_log l s) ≡ order s
  unfolding select_log new_queue push queued get insert
  select_log-order [] s e h = ground arith
  select_log-order (m ∷ rest) s e h = ground arith

  select_control-order :
      (l : List (ClientMessage V)) (s : SendTask V)
      → s.fair_log_queue ≡ new_queue
      → order (select_control written l s) ≡ order s
  unfolding select_control
  select_control-order [] s e = ground (arith, select_log-order s.log_rx s e refl)
  select_control-order (m ∷ rest) s e = ground (
    arith,
    select_log-order s.log_rx s e refl,
    logs-append s.wire (control m ∷ []),
    logs-control m,
    append-nil (logs s.wire),
  )

  advance-order :
      (p : Place) (s : SendTask V)
      → s.place ≡ p
      → AtMostOne s.fair_log_queue s.place
      → order (advance p written s) ≡ order s
  unfolding advance
  advance-order drain s e h = try_recv-order s.control_rx s
  advance-order serve s e h =
      serve_next-order s.fair_log_queue s (subst (AtMostOne s.fair_log_queue) e h) refl
  advance-order select s e h =
      select_control-order s.control_rx s (empty_at_select s.fair_log_queue s.place e h)
  advance-order done s e h = refl

  react-order :
      (e : Event V) (s : SendTask V)
      → Calm e
      → AtMostOne s.fair_log_queue s.place
      → order (react e s) ≡ order s ++ arrivals (e ∷ [])
  unfolding react arrivals
  react-order (goes_on o) s c h = rw (c, append-nil) (advance-order s.place s refl h)
  react-order (log_arrives m) s c h = simp (map-append, append_assoc)
  react-order _ s c h = sym (append-nil (order s))

  abbrev pub AllCalm : List (Event V) → Type 0
  AllCalm [] = Unit
  AllCalm (e ∷ events) = Calm e × AllCalm events

  arrivals-cons :
      (e : Event V) (l : List (Event V)) → arrivals (e ∷ l) ≡ arrivals (e ∷ []) ++ arrivals l
  unfolding arrivals
  arrivals-cons (log_arrives m) l = refl
  arrivals-cons _ l = refl

  run-order :
      (events : List (Event V)) (s : SendTask V)
      → AllCalm events
      → AtMostOne s.fair_log_queue s.place
      → order (run events s) ≡ order s ++ arrivals events
  unfolding run
  run-order [] s c h = unfold arrivals in sym (append-nil (order s))
  run-order (e ∷ events) s c h = rw (
    run-order events (react e s) c.1 (react-single e s h),
    react-order e s c.0 h,
    append_assoc (order s),
    ← arrivals-cons e events,
  )

  order-start : order start ≡ []
  unfolding start logs
  order-start = refl

  start-single : AtMostOne (start {V = V}).fair_log_queue (start {V = V}).place
  unfolding start
  start-single = inl refl

  -- While every write succeeds, the log messages on the wire, followed by some that are still under
  -- way, are those that arrived, in the order of their arrival: tasks are not served in turn.
  pub fifo :
      (events : List (Event V))
      → AllCalm events
      → (rest : List (ClientMessage V)) × (logs (run events start).wire ++ rest ≡ arrivals events)
  fifo events c = (
    held_in (run events start).fair_log_queue.queues ++ messages (run events start).log_rx,
    run-order events start c start-single ∙ ap (λ l. l ++ arrivals events) order-start,
  )
