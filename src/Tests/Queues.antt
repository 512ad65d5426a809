-- ===== src/Tests/Queues.antt =====
-- The client's queues, its send task and its connection at concrete inputs.
use tasknexus_client_agent.Prelude.{
  ℕ, ◌+◌, ◌<◌, ◌≤◌, ◌^◌, min, ℤ, pos, int_eq, text_eq, true, false, none, some, List, [], ◌∷◌, ◌++◌,
  ◌≡◌, refl, inl, arith, get, insert, map,
}
use tasknexus_client_agent.Text.{Text, codes}
use tasknexus_client_agent.Error.{connection}
use tasknexus_client_agent.Config.{AgentConfig, default_config}
use tasknexus_client_agent.Client.Message.{ClientMessage, task_log_append, TaskDispatchData}
use tasknexus_client_agent.Client.Connection.{AgentClient, new_client, QueuedLogMessage}
use tasknexus_client_agent.Client.Queue.{FairLogQueue, push, pop, queued, new_queue}
use tasknexus_client_agent.Client.Queue.Inv.{IsValid, new_queue-IsValid, push-IsValid}
use tasknexus_client_agent.Client.Queue.Turn.{push_refines, pop_refines, enqueue, serve, view}
use tasknexus_client_agent.Client.Queue.Fair.{Op, push_op, pop_op, fair, Comes, sent}
use tasknexus_client_agent.Client.Sender.{
  Event, log_arrives, goes_on, written, broken, SendTask, start,
}
use tasknexus_client_agent.Client.Sender.Order.{AtMostOne}
use tasknexus_client_agent.Client.Sender.Fifo.{fifo, logs, arrivals}
use tasknexus_client_agent.Client.Sender
use tasknexus_client_agent.Client.Session
use tasknexus_client_agent.Client.Session.{wait_time, refused, handle_message, on_task_dispatch}
use tasknexus_client_agent.Client.Session.Backoff.{wait_time_bounds, gives_up_at_max, failed, waits}

abbrev two_tasks : FairLogQueue ℕ
two_tasks = push (pos 2) 20 (push (pos 1) 11 (push (pos 1) 10 new_queue))

two_tasks-IsValid : IsValid two_tasks
two_tasks-IsValid = push-IsValid (pos 2) 20 (push (pos 1) 11 (push (pos 1) 10 new_queue)) (
    push-IsValid (pos 1) 11 (push (pos 1) 10 new_queue)
      (push-IsValid (pos 1) 10 new_queue new_queue-IsValid))

pop_refines_example : (let (m, q') = pop two_tasks in (m, view q')) ≡ serve (view two_tasks)
pop_refines_example = pop_refines two_tasks two_tasks-IsValid

push_refines_example : view (push (pos 3) 30 two_tasks) ≡ enqueue (pos 3) 30 (view two_tasks)
push_refines_example = push_refines (pos 3) 30 two_tasks two_tasks-IsValid

two_tasks-ready : two_tasks.ready_tasks ≡ (pos 1 ∷ []) ++ pos 2 ∷ []
unfolding push new_queue queued get insert
two_tasks-ready = refl

two_tasks-queued : queued (pos 2) two_tasks ≡ 20 ∷ []
unfolding push new_queue queued get insert
two_tasks-queued = refl

abbrev two_pops : List (Op ℕ)
two_pops = push_op (pos 3) 30 ∷ pop_op ∷ pop_op ∷ []

fair_example : Comes 20 (sent two_pops two_tasks)
fair_example =
    fair two_pops two_tasks (pos 2) (pos 1 ∷ []) [] 20 [] two_tasks-IsValid two_tasks-ready
      two_tasks-queued (omega arith)

abbrev log_of : ℤ → Text → QueuedLogMessage ℕ
log_of t content = record { task_id = t; message = task_log_append t 0 content }

abbrev two_logs : List (Event ℕ)
two_logs =
    log_arrives (log_of (pos 1) (codes "a"))
    ∷ log_arrives (log_of (pos 2) (codes "b"))
    ∷ goes_on written
    ∷ goes_on written
    ∷ goes_on written
    ∷ goes_on written
    ∷ goes_on written
    ∷ []

fifo_example :
    (rest : List (ClientMessage ℕ)) × (logs (Sender.run two_logs start).wire ++ rest
      ≡ arrivals two_logs)
fifo_example = fifo two_logs (tt, (tt, (refl, (refl, (refl, (refl, (refl, tt)))))))

abbrev broken_socket : List (Event ℕ)
broken_socket =
    goes_on written
    ∷ goes_on written
    ∷ log_arrives (log_of (pos 1) [])
    ∷ goes_on written
    ∷ goes_on broken
    ∷ []

start-AtMostOne : AtMostOne {V = ℕ} (start {V = ℕ}).fair_log_queue (start {V = ℕ}).place
unfolding start new_queue
start-AtMostOne = inl refl

abbrev a_config : AgentConfig
a_config = record (default_config none) {
  server = codes "ws://host/ws";
  name = codes "agent";
  max_reconnect_attempts = pos 2;
  http_proxy = some (codes "http://proxy");
}

abbrev a_client : AgentClient ℕ
a_client = record (new_client a_config) { running = true }

short_interval : a_client.config.reconnect_interval < 2 ^ 58
unfolding new_client default_config
short_interval = omega arith

two_attempts : a_client.config.max_reconnect_attempts ≡ pos 2
unfolding new_client
two_attempts = refl

no_attempts : a_client.reconnect_attempts + 2 ≡ 2
unfolding new_client
no_attempts = refl

not_connected : a_client.connected ≡ false
unfolding new_client
not_connected = refl

wait_time_bounds_example :
    (wait_time a_client ≤ 60)
    × (min a_client.config.reconnect_interval 60 ≤ wait_time a_client)
    × (wait_time a_client ≤ wait_time (failed 3 a_client))
wait_time_bounds_example = wait_time_bounds a_client 3 short_interval

gives_up_at_max_example :
    (Session.run
      (map refused (connection (codes "no") ∷ connection (codes "no") ∷ []) ++ [])
      a_client).0
    ≡ waits 1 a_client
gives_up_at_max_example =
    gives_up_at_max 1 2 (connection (codes "no") ∷ connection (codes "no") ∷ []) [] a_client refl
      two_attempts no_attempts (omega arith) not_connected refl

abbrev a_dispatch : TaskDispatchData
a_dispatch = record {
  task_id = pos 7;
  workspace_name = [];
  execution_mode = codes "command";
  command = codes "make";
  code = none;
  client_repo_url = none;
  client_repo_ref = codes "main";
  client_repo_token = none;
  timeout = 60;
  environment = [];
  prepare_repo_before_execute = false;
  cleanup_workspace_on_success = false;
}
