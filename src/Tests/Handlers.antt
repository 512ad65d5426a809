-- ===== src/Tests/Handlers.antt =====
-- Handlers of the agent that run beside each other, at concrete inputs.
use tasknexus_client_agent.Prelude.{ℕ, ℤ, pos, int_eq, true, List, [], ◌∷◌, refl, get}
use tasknexus_client_agent.Client.Message.{TaskDispatchData}
use tasknexus_client_agent.Agent.{Agent}
use tasknexus_client_agent.Agent.Control.{set_update, report_started}
use tasknexus_client_agent.Agent.Interleaving.{
  DispatchAt, received, allowed, fresh, entered, UpdateAt, requested, flagged, granted, enter,
  dispatch_turn, update_turn, Handlers, comes_dispatch, comes_update, goes_dispatch, goes_update,
}
use tasknexus_client_agent.Agent.Interleaving.Guard.{
  IsGuarded, Reached, starts, turns, Reached-IsGuarded, IsIdle, Held, holds, goes_on, Held-IsIdle,
}
use tasknexus_client_agent.Tests.Tasks.{codec, json, decimal, dispatch_of, at_start, answers}

abbrev task : TaskDispatchData
task = dispatch_of (pos 7)

abbrev handlers : Agent ℕ → List (TaskDispatchData × DispatchAt) → List (ℤ × UpdateAt) → Handlers ℕ
handlers a dispatches updates = record { agent = a; dispatches = dispatches; updates = updates }

abbrev with_flag : Agent ℕ
with_flag = set_update true at_start

abbrev update_granted : Agent ℕ
update_granted = report_started (pos 9) with_flag

abbrev update_first : Handlers ℕ
update_first = handlers with_flag [] ((pos 9, flagged) ∷ [])

update_first-Reached : Reached codec decimal json update_first
unfolding update_turn
update_first-Reached =
    turns (handlers at_start [] ((pos 9, requested) ∷ [])) update_first
      (turns (handlers at_start [] []) _ (starts at_start refl)
        (comes_update (pos 9) (handlers at_start [] []) refl))
      (goes_update answers [] [] (pos 9) requested [] at_start refl)

Reached-IsGuarded_example : IsGuarded codec decimal json update_first
Reached-IsGuarded_example = Reached-IsGuarded codec decimal json update_first update_first-Reached

abbrev dispatch_behind : Handlers ℕ
dispatch_behind = handlers update_granted ((task, received) ∷ []) ((pos 9, granted) ∷ [])

dispatch_behind-Held : Held codec decimal json update_first dispatch_behind
unfolding update_turn
dispatch_behind-Held =
    goes_on update_first (handlers update_granted [] ((pos 9, granted) ∷ [])) dispatch_behind
      (goes_on update_first update_first (handlers update_granted [] ((pos 9, granted) ∷ []))
        (holds update_first refl) (goes_update answers [] [] (pos 9) flagged [] with_flag refl)
        refl)
      (comes_dispatch task (handlers update_granted [] ((pos 9, granted) ∷ [])) refl) refl

Held-IsIdle_example : IsIdle codec decimal json dispatch_behind
Held-IsIdle_example =
    Held-IsIdle codec decimal json update_first dispatch_behind dispatch_behind-Held (refl, refl)

-- A dispatch that has passed both checks when an update begins runs its task during the update.
abbrev both_checked : Handlers ℕ
both_checked = handlers at_start ((task, fresh) ∷ []) []

both_checked-Reached : Reached codec decimal json both_checked
unfolding dispatch_turn get
both_checked-Reached =
    turns (handlers at_start ((task, allowed) ∷ []) []) both_checked
      (turns (handlers at_start ((task, received) ∷ []) []) _
        (turns (handlers at_start [] []) _ (starts at_start refl)
          (comes_dispatch task (handlers at_start [] []) refl))
        (goes_dispatch answers [] [] task received [] at_start refl))
      (goes_dispatch answers [] [] task allowed [] at_start refl)

overtaken-Reached : Reached codec decimal json (
    handlers
      (enter codec decimal task update_granted)
      ((task, entered) ∷ [])
      ((pos 9, granted) ∷ []))
unfolding dispatch_turn update_turn
overtaken-Reached =
    turns (handlers update_granted ((task, fresh) ∷ []) ((pos 9, granted) ∷ [])) _
      (turns (handlers with_flag ((task, fresh) ∷ []) ((pos 9, flagged) ∷ [])) _
        (turns (handlers at_start ((task, fresh) ∷ []) ((pos 9, requested) ∷ [])) _
          (turns both_checked _ both_checked-Reached (comes_update (pos 9) both_checked refl))
          (goes_update answers [] [] (pos 9) requested ((task, fresh) ∷ []) at_start refl))
        (goes_update answers [] [] (pos 9) flagged ((task, fresh) ∷ []) with_flag refl))
      (goes_dispatch answers [] [] task fresh ((pos 9, granted) ∷ []) update_granted refl)
