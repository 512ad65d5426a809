-- ===== src/Client/Session/Backoff.antt =====
-- How long `run` of agent/src/client.rs waits between attempts to connect, and when it gives up.
use tasknexus_client_agent.Prelude.{
  ℕ, zero, suc, ◌+◌, ◌*◌, ◌%◌, ◌^◌, ◌≤◌, ◌<◌, min, pos, true, false, none, List, [], ◌∷◌, ◌++◌, ◌≡◌,
  refl, length, arith, ap, ◌∙◌, map,
}
use native.Mathlib.Nat.{pow-le-pow_right, one-le-pow}
use tasknexus_client_agent.Error.{AgentError}
use tasknexus_client_agent.Client.Connection.{AgentClient}
use tasknexus_client_agent.Client.Session.{
  Session, refused, Action, gave_up, sleep, wait_time, exhausted, run,
}

factor_mono : (a n : ℕ) → 2 ^ min a 5 ≤ 2 ^ min (a + n) 5
factor_mono a n = pow-le-pow_right (omega arith) (omega arith)

factor-le : (a : ℕ) → 2 ^ min a 5 ≤ 32
factor-le a = pow-le-pow_right {n = 2} (omega arith) {j = 5} (omega arith)

bounds :
    (i p q : ℕ)
    → i < 2 ^ 58
    → 1 ≤ p
    → p ≤ q
    → q ≤ 32
    → (min i 60 ≤ min ((i * p) % 2 ^ 64) 60)
      × (min ((i * p) % 2 ^ 64) 60 ≤ min ((i * q) % 2 ^ 64) 60)
bounds i p q h a b c =
    let x : i * 1 ≤ i * p = grind arith in
    let y : i * p ≤ i * q = grind arith in
    let z : i * q ≤ i * 32 = grind arith in (omega arith, omega arith)

module _ {V : Type 0} where
  -- The client after `n` more failures.
  abbrev pub failed : ℕ → AgentClient V → AgentClient V
  failed n c = record c { reconnect_attempts = c.reconnect_attempts + n }

  -- The wait is at most a minute, at least the configured interval if that is less than a minute,
  -- and no shorter after more failures, if the interval is a sensible number of seconds.
  pub wait_time_bounds :
      (c : AgentClient V) (n : ℕ)
      → c.config.reconnect_interval < 2 ^ 58
      → (wait_time c ≤ 60)
        × (min c.config.reconnect_interval 60 ≤ wait_time c)
        × (wait_time c ≤ wait_time (failed n c))
  unfolding wait_time
  wait_time_bounds c n h =
      let (low, high) =
        bounds c.config.reconnect_interval (2 ^ min c.reconnect_attempts 5)
          (2 ^ min (c.reconnect_attempts + n) 5) h
          (one-le-pow (min c.reconnect_attempts 5) 2 (omega arith))
          (factor_mono c.reconnect_attempts n) (factor-le (c.reconnect_attempts + n)) in
      (omega arith, low, high)

  -- `k` waits, each for one more failure, and then no further attempt.
  pub waits : ℕ → AgentClient V → List Action
  waits zero c = gave_up ∷ []
  waits (suc k) c = sleep (wait_time (failed 1 c)) ∷ waits k (failed 1 c)

  same_waits :
      (k : ℕ) (c d : AgentClient V)
      → c.config ≡ d.config
      → c.reconnect_attempts ≡ d.reconnect_attempts
      → waits k c ≡ waits k d
  unfolding waits wait_time
  same_waits zero c d e f = refl
  same_waits (suc k) c d e f =
      cc (e, f, same_waits k (failed 1 c) (failed 1 d) e (ap (λ a. a + 1) f))

  abbrev after_refusal : AgentClient V → AgentClient V
  after_refusal c = record c {
    connected = false;
    reconnect_attempts = c.reconnect_attempts + 1;
    control_sender = none;
    log_sender = none;
  }

  run-refused :
      (e : AgentError) (sessions : List Session) (c : AgentClient V)
      → exhausted c.config.max_reconnect_attempts (c.reconnect_attempts + 1) ≡ false
      → (c.reconnect_attempts + 1) % 2 ^ 32 ≡ c.reconnect_attempts + 1
      → c.connected ≡ false
      → c.running ≡ true
      → (run (refused e ∷ sessions) c).0
        ≡ sleep (wait_time (after_refusal c)) ∷ (run sessions (after_refusal c)).0
  run-refused e sessions c x a h r = unfold run in rw (a, x, h, r)

  -- Refused again and again, a running client gives up at the configured number of failures in a
  -- row, not before, and waits between the attempts.
  pub gives_up_at_max :
      (k m : ℕ) (es : List AgentError) (more : List Session) (c : AgentClient V)
      → length es ≡ suc k
      → c.config.max_reconnect_attempts ≡ pos m
      → c.reconnect_attempts + suc k ≡ m
      → m < 2 ^ 31
      → c.connected ≡ false
      → c.running ≡ true
      → (run (map refused es ++ more) c).0 ≡ waits k c
  unfolding run waits
  gives_up_at_max k m [] more c l x a b h r = absurd (omega arith)
  gives_up_at_max zero m (e ∷ es) more c l x a b h r = ground arith
  gives_up_at_max (suc k) m (e ∷ []) more c l x a b h r = absurd (omega arith)
  gives_up_at_max (suc k) m (e ∷ f ∷ es) more c l x a b h r =
      run-refused e (map refused (f ∷ es) ++ more) c (unfold exhausted in rw x (ground arith))
        (omega arith) h r
      ∙ ap (λ t. sleep (wait_time (failed 1 c)) ∷ t)
          (gives_up_at_max k m (f ∷ es) more (after_refusal c) (omega arith) x (omega arith) b refl
              r
            ∙ same_waits k (after_refusal c) (failed 1 c) refl refl)
