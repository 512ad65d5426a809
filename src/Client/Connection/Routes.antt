-- ===== src/Client/Connection/Routes.antt =====
-- Where `send_message` puts a message.
use tasknexus_client_agent.Prelude.{none, some, is_some, ◌≡◌, refl}
use tasknexus_client_agent.Client.Message.{ClientMessage, log_task_id, is_log_message, task_started}
use tasknexus_client_agent.Client.Connection.{
  AgentClient, send_message, send_queued, send_control_message,
}

module _ {V : Type 0} where
  is_log_message-eq : (m : ClientMessage V) → is_log_message m ≡ is_some (log_task_id m)
  unfolding is_log_message log_task_id
  is_log_message-eq (task_started t) = refl
  is_log_message-eq _ = refl

  -- A message with a task goes through the log channel under that task, any other through the
  -- control channel: `send_message` never meets the error of a log message without a task.
  pub send_message-route :
      (m : ClientMessage V) (c : AgentClient V)
      → send_message m c
        ≡ elim (log_task_id m) [ some t ↦ send_queued t m c | none ↦ send_control_message m c ]
  unfolding send_message
  send_message-route (task_started t) c = refl
  send_message-route _ c = refl
