-- ===== src/Client/Sender.antt =====
-- The send task of `message_loop` in agent/src/client.rs, step by step. What the channels bring and
-- how each write ends is chosen from outside, so a run is a list of events.
pub mod Order
pub mod Fifo
use tasknexus_client_agent.Prelude.{
  Bool, true, false, ◌&&◌, not, Option, none, some, List, [], ◌∷◌, ◌++◌, if◌then◌else◌,
}
use tasknexus_client_agent.Client.Message.{ClientMessage}
use tasknexus_client_agent.Client.Connection.{QueuedLogMessage}
use tasknexus_client_agent.Client.Queue.{FairLogQueue, new_queue, push, pop}

-- Where the task stands: in the inner loop over the control channel, before `fair_log_queue.pop()`,
-- in `select!`, or returned.
pub data Place : Type 0 where
  drain serve select done : Place

-- What was written to the socket, and by which channel it came.
pub data Sent (V : Type 0) : Type 0 where
  control log : ClientMessage V → Sent V

-- How the write of a message ends: on the wire, not serialized (and dropped), or the socket fails.
pub data Outcome : Type 0 where
  written unserialized broken : Outcome

pub record SendTask (V : Type 0) : Type 0 where
  pub place : Place
  pub control_rx : List (ClientMessage V)
  pub control_senders_gone : Bool
  pub log_rx : List (QueuedLogMessage V)
  pub log_senders_gone : Bool
  pub control_closed : Bool
  pub log_closed : Bool
  pub fair_log_queue : FairLogQueue (ClientMessage V)
  pub wire : List (Sent V)

pub data Event (V : Type 0) : Type 0 where
  control_arrives : ClientMessage V → Event V
  log_arrives : QueuedLogMessage V → Event V
  control_ends log_ends : Event V
  goes_on : Outcome → Event V

module _ {V : Type 0} where
  unfoldable pub start : SendTask V
  unfolding new_queue
  start = record {
    place = drain;
    control_rx = [];
    control_senders_gone = false;
    log_rx = [];
    log_senders_gone = false;
    control_closed = false;
    log_closed = false;
    fair_log_queue = new_queue;
    wire = [];
  }

  -- Serialize, lock the socket, write; afterwards the loop starts again at its top.
  unfoldable pub write : Outcome → Sent V → SendTask V → SendTask V
  write written m s = record s { wire = s.wire ++ m ∷ []; place = drain }
  write unserialized m s = record s { place = drain }
  write broken m s = record s { place = done }

  -- `control_rx.try_recv()`
  unfoldable pub try_recv : Outcome → List (ClientMessage V) → SendTask V → SendTask V
  unfolding write
  try_recv o (m ∷ rest) s = write o (control m) (record s { control_rx = rest })
  try_recv o [] s =
      if s.control_senders_gone
      then record s { control_closed = true; place = serve }
      else record s { place = serve }

  unfoldable pub serve_next :
      Outcome → Option (ClientMessage V) × FairLogQueue (ClientMessage V) → SendTask V → SendTask V
  unfolding write
  serve_next o (some m, q) s = write o (log m) (record s { fair_log_queue = q })
  serve_next o (none, q) s =
      if s.control_closed && s.log_closed
      then record s { fair_log_queue = q; place = done }
      else record s { fair_log_queue = q; place = select }

  -- The second arm of `select!`, which is polled when the first has nothing.
  unfoldable pub select_log : List (QueuedLogMessage V) → SendTask V → SendTask V
  select_log (m ∷ rest) s = if s.log_closed then s else record s {
    log_rx = rest;
    fair_log_queue = push m.task_id m.message s.fair_log_queue;
    place = drain;
  }
  select_log [] s =
      if not s.log_closed && s.log_senders_gone
      then record s { log_closed = true; place = drain }
      else s

  -- `select!` is biased: the control channel is polled first. It waits where neither arm is ready.
  unfoldable pub select_control : Outcome → List (ClientMessage V) → SendTask V → SendTask V
  unfolding write select_log
  select_control o (m ∷ rest) s =
      if s.control_closed
      then select_log s.log_rx s
      else write o (control m) (record s { control_rx = rest })
  select_control o [] s =
      if not s.control_closed && s.control_senders_gone
      then record s { control_closed = true; place = drain }
      else select_log s.log_rx s

  unfoldable pub advance : Place → Outcome → SendTask V → SendTask V
  unfolding try_recv serve_next select_control
  advance drain o s = try_recv o s.control_rx s
  advance serve o s = serve_next o (pop s.fair_log_queue) s
  advance select o s = select_control o s.control_rx s
  advance done o s = s

  unfoldable pub react : Event V → SendTask V → SendTask V
  unfolding advance
  react (control_arrives m) s = record s { control_rx = s.control_rx ++ m ∷ [] }
  react (log_arrives m) s = record s { log_rx = s.log_rx ++ m ∷ [] }
  react control_ends s = record s { control_senders_gone = true }
  react log_ends s = record s { log_senders_gone = true }
  react (goes_on o) s = advance s.place o s

  unfoldable pub run : List (Event V) → SendTask V → SendTask V
  unfolding react
  run [] s = s
  run (e ∷ events) s = run events (react e s)
