-- ===== src/Client/Connection/Acks.antt =====
-- The acknowledged offsets of the tasks, in the order in which they arrive.
use tasknexus_client_agent.Prelude.{
  ℕ, max, ℤ, int_eq, get-insert, get-remove, eqb_ℤ_iff, ◌==◌, ◌≡◌, arith, List, [], ◌∷◌,
  if◌then◌else◌,
}
use tasknexus_client_agent.Client.Connection.{
  AgentClient, record_task_log_ack, get_task_log_ack, clear_task_log_ack,
}

-- The greatest offset among the acks of a task.
pub highest : ℤ → List (ℤ × ℕ) → ℕ
highest t [] = 0
highest t ((s, n) ∷ acks) = if s == t then max n (highest t acks) else highest t acks

module _ {V : Type 0} where
  -- An ack raises its task's offset to the ack's, never lowers it, and leaves other tasks alone.
  pub get-record :
      (t s : ℤ) (n : ℕ) (c : AgentClient V)
      → get_task_log_ack s (record_task_log_ack t n c)
        ≡ (if t == s then max (get_task_log_ack t c) n else get_task_log_ack s c)
  unfolding get_task_log_ack record_task_log_ack
  get-record t s n c = ground (
    arith,
    eqb_ℤ_iff t s,
    get-insert t s n c.log_ack_offsets,
    get-insert t s (max (get_task_log_ack t c) n) c.log_ack_offsets,
  )

  pub get-clear :
      (t s : ℤ) (c : AgentClient V)
      → get_task_log_ack s (clear_task_log_ack t c) ≡ (if t == s then 0 else get_task_log_ack s c)
  unfolding get_task_log_ack clear_task_log_ack
  get-clear t s c = ground (arith, get-remove t s c.log_ack_offsets)

  -- The acks of a connection, one after another.
  pub record_all : List (ℤ × ℕ) → AgentClient V → AgentClient V
  record_all [] c = c
  record_all ((t, n) ∷ acks) c = record_all acks (record_task_log_ack t n c)

  -- After any acks in any order, a task's offset is the greatest of the one before and its acks'.
  pub get-record_all :
      (acks : List (ℤ × ℕ)) (t : ℤ) (c : AgentClient V)
      → get_task_log_ack t (record_all acks c) ≡ max (get_task_log_ack t c) (highest t acks)
  unfolding record_all highest
  get-record_all [] t c = omega arith
  get-record_all ((s, n) ∷ acks) t c =
      ground (
        arith,
        get-record_all acks t (record_task_log_ack s n c),
        get-record s t n c,
        eqb_ℤ_iff s t,
      )
