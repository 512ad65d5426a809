-- ===== src/Executor/Process/Ending.antt =====
-- What the result of `execute` says of the process.
use tasknexus_client_agent.Prelude.{
  ℕ, ℤ, pos, negsuc, ◌≡◌, refl, ◌↔◌, false, ◌&&◌, Option, none, some, arith, get, ap, or_else,
  text_eq, ◌==◌, if◌then◌else◌, Map, Bool-cases, inl, inr, get-remove,
}
use tasknexus_client_agent.Text.{Text, codes}
use tasknexus_client_agent.Executor.Process.{
  ExecutionResult, Finished, Behaviour, Spawn, passed_env, result_of, in_time, ending_of,
}

-- The process was started, was not cancelled, and ended in time with status 0.
pub record Succeeds (s : Spawn) (b : Behaviour) : Type 0 where
  pub started : b.spawn_error ≡ none
  pub kept : (s.has_cancel && b.signalled) ≡ false
  pub done : Finished
  pub in_time : b.finished ≡ some done
  pub status : done.status ≡ some (pos 0)

abbrev pub IsClean : {V : Type 0} → ExecutionResult V → Type 0
IsClean r = (r.exit_code ≡ pos 0) × (r.timed_out ≡ false) × (r.cancelled ≡ false)

module _ {V : Type 0} (from_str : Text → Option (Map Text V)) (decimal : ℕ → Text) where
  of_status : (status : Option ℤ) → or_else status (negsuc 0) ≡ pos 0 → status ≡ some (pos 0)
  of_status none h = cc
  of_status (some c) h = ap some h

  of_finished :
      (s : Spawn) (f : Option Finished)
      → (in_time from_str decimal s f).exit_code ≡ pos 0
      → (done : Finished) × (f ≡ some done) × (done.status ≡ some (pos 0))
  of_finished s none h = cc
  of_finished s (some done) h = (done, refl, of_status done.status h)

  of_kept :
      (s : Spawn) (b : Behaviour) (e : Option Text)
      → (ending_of from_str decimal e s b).exit_code ≡ pos 0
      → (e ≡ none)
        × ((s.has_cancel && b.signalled) ≡ false)
        × ((in_time from_str decimal s b.finished).exit_code ≡ pos 0)
  of_kept s b (some e) h = cc
  of_kept s b none h = elim (Bool-cases (s.has_cancel && b.signalled)) [
    | inl signal ↦ ground arith
    | inr kept ↦ ground arith
  ]

  -- The exit code is 0 exactly when the process was started, was not cancelled, and ended within its
  -- time with status 0.
  pub result_of-Succeeds :
      (s : Spawn) (b : Behaviour)
      → ((result_of from_str decimal s b).exit_code ≡ pos 0) ↔ Succeeds s b
  unfolding result_of
  result_of-Succeeds s b = (
    λ h.
        let k = of_kept s b b.spawn_error h in
        let f = of_finished s b.finished k.2 in
        record { started = k.0; kept = k.1; done = f.0; in_time = f.1; status = f.2 },
    λ p. rw (p.started, p.kept, p.in_time) (ap (λ c. or_else c (negsuc 0)) p.status),
  )

  -- A result with exit code 0 is neither timed out nor cancelled.
  pub result_of-IsClean :
      (s : Spawn) (b : Behaviour)
      → (result_of from_str decimal s b).exit_code ≡ pos 0
      → IsClean (result_of from_str decimal s b)
  unfolding result_of
  result_of-IsClean s b h =
      let k = of_kept s b b.spawn_error h in
      let f = of_finished s b.finished k.2 in (h, rw (k.0, k.1, f.1) refl, rw (k.0, k.1, f.1) refl)

abbrev pub found : Text → Option (Map Text Text) → Option Text
found key none = none
found key (some env) = get key env

-- A process gets the variables of its environment, all but `SHELL`.
pub get-passed_env :
    (key : Text) (env : Option (Map Text Text))
    → get key (passed_env env) ≡ (if codes "SHELL" == key then none else found key env)
unfolding get passed_env
get-passed_env key none = ground arith
get-passed_env key (some env) = get-remove (codes "SHELL") key env
