-- ===== src/Client/Session/Dispatch.antt =====
-- What `handle_message` of agent/src/client.rs makes of a message.
use tasknexus_client_agent.Prelude.{
  ◌≤◌, ℤ, int_eq, false, [], ◌∷◌, ◌≡◌, refl, eqb_ℤ_iff, arith, is_empty, if◌then◌else◌,
}
use tasknexus_client_agent.Text.{Text, codes}
use tasknexus_client_agent.Client.Message.{
  ServerMessage, task_log_ack, task_dispatch, TaskDispatchData,
}
use tasknexus_client_agent.Client.Connection.{AgentClient, get_task_log_ack}
use tasknexus_client_agent.Client.Connection.Acks.{get-record}
use tasknexus_client_agent.Client.Session.{on_task_dispatch, handle_message, with_workspace}

module _ {V : Type 0} where
  -- A dispatch is handed on, whole, with a workspace that has a name: the message's, or `default`
  -- if that is empty.
  pub handle_message-dispatch :
      (d : TaskDispatchData) (c : AgentClient V)
      → (e : TaskDispatchData) × ((handle_message (task_dispatch d) c).0 ≡ on_task_dispatch e ∷ [])
        × (is_empty e.workspace_name ≡ false)
        × (is_empty d.workspace_name ≡ false → e ≡ d)
        × (e ≡ record d { workspace_name = e.workspace_name })
  unfolding handle_message
  handle_message-dispatch d c = (with_workspace d, refl, named d.workspace_name, kept, refl)
    where
      named : (w : Text) → is_empty (if is_empty w then codes "default" else w) ≡ false
      named [] = refl
      named (x ∷ w) = refl

      kept : is_empty d.workspace_name ≡ false → with_workspace d ≡ d
      kept h = rw h refl

  -- No message lowers the acknowledged offset of a task.
  pub handle_message-acks :
      (m : ServerMessage) (t : ℤ) (c : AgentClient V)
      → get_task_log_ack t c ≤ get_task_log_ack t (handle_message m c).1
  unfolding handle_message
  handle_message-acks (task_log_ack s n) t c = ground (arith, get-record s t n c, eqb_ℤ_iff s t)
  handle_message-acks _ t c = omega arith
