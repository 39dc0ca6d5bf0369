-- ===== src/Gpu/Context/Supervised.antt =====
-- context_actor.rs and error.rs: the context actor under `device_supervisor_strategy`. A restart makes a
-- new actor from `props`, with the state of the device kept; `retries` are the restarts that are
-- left in the strategy's window, and when none is left the actor stops.
use atomr_accel.Common.{ℕ, zero, suc, ◌≡◌, refl, List, [], ◌∷◌, ◌++◌, Text}
use atomr_accel.Gpu.Error.{Directive, restart, resume, stop, escalate, decide_str}
use atomr_accel.Gpu.State.{Watch, DeviceState}
use atomr_accel.Gpu.Context.{
  Driver, Input, Effect, no_context, ContextActor, new, Outcome, done, panicked, Buffers, handle,
  post_restart, post_stop,
}

module _ (w : Watch) where
  pub data System : Type 0 where
    up : (retries : ℕ) → ContextActor w → System
    stopped : DeviceState w → System
    escalated : ContextActor w → System

  unfoldable pub stops : ContextActor w → System × List Effect
  unfolding post_stop
  stops c = let (c', out) = post_stop w c in (stopped c'.state, out)

  -- By the directive, the supervisor restarts, resumes, stops or passes the failure on.
  unfoldable pub supervise : ℕ → ContextActor w → Directive → System × List Effect
  unfolding stops new
  supervise zero c restart = stops c
  supervise (suc n) c restart = (up n (new w c.config c.state), post_restart w)
  supervise n c resume = (up n c, [])
  supervise n c stop = stops c
  supervise n c escalate = (escalated c, [])

  unfoldable pub settle : ℕ → Outcome w → System × List Effect
  unfolding supervise
  settle n (done c out) = (up n c, out)
  settle n (panicked c message) = supervise n c (decide_str message)

  -- The inputs that the actor takes, each with what the driver answers to it. Inputs after the end are lost.
  unfoldable pub run : System → List (Buffers w × Driver × Input) → System × List Effect
  unfolding settle handle
  run (up n c) ((b, driver, m) ∷ rest) =
      let (s, out) = settle n (handle w c b driver m) in
      let (s', more) = run s rest in (s', out ++ more)
  run (up n c) [] = (up n c, [])
  run (stopped d) ms = (stopped d, [])
  run (escalated c) ms = (escalated c, [])

  pub no_context-restarts : (id : ℕ) (e : Text) → decide_str (no_context id e) ≡ restart
  unfolding decide_str no_context
  no_context-restarts id e = refl

  abbrev pub Inputs : Type 0
  Inputs = List (Buffers w × Driver × Input)
