-- ===== src/Agent/Interleaving/Guard.antt =====
-- How far the flag of agent/src/main.rs keeps updates and tasks apart when their handlers run beside
-- each other.
use tasknexus_client_agent.Prelude.{
  ℕ, ℤ, int_eq, true, false, ◌&&◌, List, [], ◌∷◌, ◌++◌, ◌≡◌, refl, sym, ap, ◌∙◌, arith, ◌+◌,
}
use tasknexus_client_agent.Text.{Text}
use tasknexus_client_agent.Client.Message.{TaskDispatchData}
use tasknexus_client_agent.Store.{Json}
use tasknexus_client_agent.Store.Disk.{Codec}
use tasknexus_client_agent.Agent.{Agent}
use tasknexus_client_agent.Agent.Interleaving.{
  DispatchAt, UpdateAt, Handlers, Turns, comes_dispatch, comes_update, goes_dispatch, goes_update,
}
use tasknexus_client_agent.Agent.Interleaving.Steps.{
  update_turn-IsCounted, update_turn-running, active, count_active, count_active-append, bit,
  is_outside, all_outside, dispatch_turn-flag, dispatch_turn-outside,
}

module _ {V : Type 0} (codec : Codec V) (decimal : ℕ → Text) (json : Json V) where
  -- The flag is set exactly while one update has set it and not reset it.
  abbrev pub IsGuarded : Handlers V → Type 0
  IsGuarded s = count_active s.updates ≡ bit s.agent.update_in_progress

  -- The others in front of and behind one update.
  count_split :
      (before after : List (ℤ × UpdateAt)) (task_id : ℤ) (at : UpdateAt)
      → count_active (before ++ (task_id, at) ∷ after)
        ≡ (count_active before + count_active after) + active at
  count_split before after task_id at =
      count_active-append before ((task_id, at) ∷ after) ∙ omega arith

  Turns-IsGuarded : (s t : Handlers V) → Turns codec decimal json s t → IsGuarded s → IsGuarded t
  Turns-IsGuarded s _ (comes_dispatch d _ alive) h = h
  Turns-IsGuarded s _ (comes_update task_id _ alive) h = omega (arith, h)
  Turns-IsGuarded _ _ (goes_dispatch answers before after d at updates a alive) h =
      h ∙ ap bit (sym (dispatch_turn-flag codec decimal answers d at a))
  Turns-IsGuarded _ _ (goes_update answers before after task_id at dispatches a alive) h =
      count_split before after task_id _
      ∙ update_turn-IsCounted codec decimal json answers task_id
          (count_active before + count_active after) at a
          (sym (count_split before after task_id at) ∙ h)

  -- What handlers beside each other reach from an agent that has just started.
  pub data Reached : Handlers V → Type 0 where
    starts :
        (a : Agent V)
        → a.update_in_progress ≡ false
        → Reached (record { agent = a; dispatches = []; updates = [] })
    turns : (s t : Handlers V) → Reached s → Turns codec decimal json s t → Reached t

  -- However the handlers of dispatches and updates take turns: at most one update is between its
  -- setting of the flag and its reset, and the flag is set exactly if there is one.
  pub Reached-IsGuarded : (s : Handlers V) → Reached s → IsGuarded s
  Reached-IsGuarded _ (starts a free) = ap bit (sym free)
  Reached-IsGuarded t (turns s _ r step) = Turns-IsGuarded s t step (Reached-IsGuarded s r)

  -- No task is running and no dispatch is between its first check and its end.
  abbrev pub IsIdle : Handlers V → Type 0
  IsIdle s = (s.agent.running_tasks ≡ []) × (all_outside s.dispatches ≡ true)

  all_outside-append :
      (xs ys : List (TaskDispatchData × DispatchAt))
      → all_outside (xs ++ ys) ≡ (all_outside xs && all_outside ys)
  all_outside-append [] ys = refl
  all_outside-append ((d, at) ∷ xs) ys = ground (arith, all_outside-append xs ys)

  replaced_outside :
      (before after : List (TaskDispatchData × DispatchAt)) (d : TaskDispatchData)
      (at at' : DispatchAt)
      → all_outside (before ++ (d, at) ∷ after) ≡ true
      → (is_outside at ≡ true)
        × (is_outside at' ≡ true → all_outside (before ++ (d, at') ∷ after) ≡ true)
  replaced_outside before after d at at' h = (
    ground (arith, h, all_outside-append before ((d, at) ∷ after)),
    λ o. ground (
      arith,
      h,
      o,
      all_outside-append before ((d, at) ∷ after),
      all_outside-append before ((d, at') ∷ after),
    ),
  )

  Turns-IsIdle :
      (s t : Handlers V)
      → Turns codec decimal json s t
      → s.agent.update_in_progress ≡ true
      → IsIdle s
      → IsIdle t
  Turns-IsIdle s _ (comes_dispatch d _ alive) u h = h
  Turns-IsIdle s _ (comes_update task_id _ alive) u h = h
  Turns-IsIdle _ _ (goes_dispatch answers before after d at updates a alive) u h =
      let split = replaced_outside before after d at _ h.1 in
      let r = dispatch_turn-outside codec decimal answers d at a u split.0 in
      (r.1 ∙ h.0, split.1 r.0)
  Turns-IsIdle _ _ (goes_update answers before after task_id at dispatches a alive) u h =
      (update_turn-running codec decimal json answers task_id at a ∙ h.0, h.1)

  -- Turns during which the flag stays set.
  pub data Held : Handlers V → Handlers V → Type 0 where
    holds : (s : Handlers V) → s.agent.update_in_progress ≡ true → Held s s
    goes_on :
        (s t v : Handlers V)
        → Held s t
        → Turns codec decimal json t v
        → v.agent.update_in_progress ≡ true
        → Held s v

  flag-Held : (s t : Handlers V) → Held s t → t.agent.update_in_progress ≡ true
  flag-Held s _ (holds _ u) = u
  flag-Held s t (goes_on _ _ _ h step u) = u

  -- As long as the flag stays set, however the handlers take turns: if no task is running and no
  -- dispatch is between its check of the flag and its end, then that stays so, whatever dispatches
  -- and updates come.
  pub Held-IsIdle : (s t : Handlers V) → Held s t → IsIdle s → IsIdle t
  Held-IsIdle s _ (holds _ u) h = h
  Held-IsIdle s v (goes_on _ t _ held step u) h =
      Turns-IsIdle t v step (flag-Held s t held) (Held-IsIdle s t held h)
