-- ===== src/Client/Queue.antt =====
-- `FairLogQueue` of agent/src/client.rs: one queue of messages for each task, and the tasks that
-- wait, served in turn. It moves messages and never looks into them, so their type is a parameter.
pub mod Inv
pub mod Turn
pub mod Fair
use tasknexus_client_agent.Prelude.{
  ◌≡◌, ℤ, int_eq, Map, get, insert, remove, Option, none, some, List, [], ◌∷◌, ◌++◌, if◌then◌else◌,
  is_empty, or_else,
}

pub record FairLogQueue (M : Type 0) : Type 0 where
  pub queues : Map ℤ (List M)
  pub ready_tasks : List ℤ

module _ {M : Type 0} where
  -- `FairLogQueue::default()`
  unfoldable pub new_queue : FairLogQueue M
  new_queue = record { queues = []; ready_tasks = [] }

  -- The messages of a task that wait, oldest first.
  unfoldable pub queued : ℤ → FairLogQueue M → List M
  queued t q = or_else (get t q.queues) []

  -- `entry(task_id).or_default()`, `push_back`, and the task joins the line if it had none.
  unfoldable pub push : ℤ → M → FairLogQueue M → FairLogQueue M
  unfolding queued
  push t m q = record {
    queues = insert t (queued t q ++ m ∷ []) q.queues;
    ready_tasks = if is_empty (queued t q) then q.ready_tasks ++ t ∷ [] else q.ready_tasks;
  }

  -- The rounds of the `while let` loop of `pop`, by the tasks that are left in line. A queue that
  -- `pop_front` empties is removed; one that still holds messages sends its task to the back.
  unfoldable pub pop_from : Map ℤ (List M) → List ℤ → Option M × FairLogQueue M
  pop_from qs [] = (none, record { queues = qs; ready_tasks = [] })
  pop_from qs (t ∷ ready) = elim (get t qs) [
    | none ↦ pop_from qs ready
    | some [] ↦ pop_from (remove t qs) ready
    | some (m ∷ []) ↦ (some m, record { queues = remove t qs; ready_tasks = ready })
    | some (m ∷ n ∷ rest) ↦
        (some m, record { queues = insert t (n ∷ rest) qs; ready_tasks = ready ++ t ∷ [] })
  ]

  unfoldable pub pop : FairLogQueue M → Option M × FairLogQueue M
  unfolding pop_from
  pop q = pop_from q.queues q.ready_tasks
