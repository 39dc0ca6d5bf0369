-- ===== src/Gpu/Context/Life.antt =====
-- context_actor.rs: what holds all through the life of the context actor.
use mathlib.Core.Path.{subst}
use atomr_accel.Common.{
  sym, ℕ, zero, suc, ◌+◌, ◌%◌, ap, ◌∙◌, ◌≡◌, refl, Bool, none, List, [], ◌∷◌, ◌++◌, arith,
}
use atomr_accel.Gpu.Error.{Directive, restart, resume, stop, escalate, decide_str}
use atomr_accel.Gpu.State
use atomr_accel.Gpu.State.{
  clear_context, Watch, DeviceState, bump_generation, install_context, u64_mod,
}
use atomr_accel.Gpu.Device.Handler.{DeviceConfig}
use atomr_accel.Gpu.Context.{
  Driver, Input, Effect, ContextActor, new, Outcome, done, panicked, Buffers, handle, post_stop,
}
use atomr_accel.Gpu.Context.Supervised.{
  System, up, stopped, escalated, stops, supervise, settle, run, Inputs,
}
use atomr_accel.Gpu.Context.Account.{
  readies, readies-append, bump, report, bumps, reports, IsUp, Keeps, handle-Keeps,
}

module _ (w : Watch) where
  -- A system after `n` bumps. An actor that is up has left no input out.
  abbrev pub Holds : Bool → ℕ → Inputs w → System w → Type 0
  Holds mock n rest (up retries c) = (rest ≡ []) × IsUp w mock n c
  Holds mock n rest (escalated c) = IsUp w mock n c
  Holds mock n rest (stopped d) = (d.current_ctx ≡ none) × (d.generation ≡ n % u64_mod)

  -- What the inputs leave: some of them are taken, and each of these bumps the generation and reports as
  -- the driver's answers say, from `n` bumps on.
  pub record Stands (mock : Bool) (n : ℕ) (inputs : Inputs w) (r : System w × List Effect)
      : Type 0 where
    pub taken : Inputs w
    pub rest : Inputs w
    pub split : inputs ≡ taken ++ rest
    pub reported : readies w (r.1) ≡ reports w mock taken
    pub holds : Holds mock (n + bumps w mock taken) rest (r.0)

  fresh-IsUp :
      (mock : Bool) (n : ℕ) (c : ContextActor w)
      → IsUp w mock n c
      → IsUp w mock n (new w c.config c.state)
  unfolding new
  fresh-IsUp mock n c h = record {
    mode = h.mode;
    generation = h.generation;
    ready = λ e. cc;
    installed = λ e. cc;
    no_stream = λ _. refl;
  }

  supervise-Holds :
      (mock : Bool) (n retries : ℕ) (c : ContextActor w) (d : Directive)
      → IsUp w mock n c
      → (readies w ((supervise w retries c d).1) ≡ 0)
        × Holds mock n [] ((supervise w retries c d).0)
  unfolding supervise stops post_stop clear_context
  supervise-Holds mock n zero c restart u = (refl, (refl, u.generation))
  supervise-Holds mock n (suc r) c restart u = (refl, (refl, fresh-IsUp mock n c u))
  supervise-Holds mock n r c resume u = (refl, (refl, u))
  supervise-Holds mock n r c stop u = (refl, (refl, u.generation))
  supervise-Holds mock n r c escalate u = (refl, u)

  settle-Holds :
      (mock : Bool) (n k retries : ℕ) (o : Outcome w)
      → Keeps w mock n k o
      → (readies w ((settle w retries o).1) ≡ k) × Holds mock n [] ((settle w retries o).0)
  unfolding settle
  settle-Holds mock n k r (done c out) (told, u) = (told, (refl, u))
  settle-Holds mock n k r (panicked c message) (none_told, u) =
      let (quiet, holds) = supervise-Holds mock n r c (decide_str message) u in
      (quiet ∙ sym none_told, holds)

  -- One more input before those that were taken.
  longer :
      (mock : Bool) (n : ℕ) (b : Buffers w) (driver : Driver) (m : Input) (rest : Inputs w)
      (out : List Effect) (r : System w × List Effect)
      → readies w out ≡ report w mock driver m
      → Stands mock (n + bump w mock driver m) rest r
      → Stands mock n ((b, driver, m) ∷ rest) (r.0, out ++ r.1)
  longer mock n b driver m rest out r told h = record {
    taken = (b, driver, m) ∷ h.taken;
    rest = h.rest;
    split = ap (λ xs. (b, driver, m) ∷ xs) h.split;
    reported = omega (arith, readies-append w out (r.1), told, h.reported);
    holds = subst (λ k. Holds mock k h.rest (r.0)) (omega arith) h.holds;
  }

  ended :
      (mock : Bool) (n : ℕ) (inputs : Inputs w) (s : System w)
      → Holds mock n inputs s
      → Stands mock n inputs (s, [])
  ended mock n inputs s h = record {
    taken = [];
    rest = inputs;
    split = refl;
    reported = refl;
    holds = subst (λ k. Holds mock k inputs s) (omega arith) h;
  }

  resumed :
      (mock : Bool) (n : ℕ) (rest : Inputs w) (s : System w)
      → ((retries : ℕ) (c : ContextActor w)
          → IsUp w mock n c
          → Stands mock n rest (run w (up retries c) rest))
      → Holds mock n [] s
      → Stands mock n rest (run w s rest)
  unfolding run
  resumed mock n rest (up r c) go (_, u) = go r c u
  resumed mock n rest (stopped d) go h = ended mock n rest (stopped d) h
  resumed mock n rest (escalated c) go u = ended mock n rest (escalated c) u

  run-Stands :
      (mock : Bool) (inputs : Inputs w) (n retries : ℕ) (c : ContextActor w)
      → IsUp w mock n c
      → Stands mock n inputs (run w (up retries c) inputs)
  unfolding run
  run-Stands mock [] n r c u = ended mock n [] (up r c) (refl, u)
  run-Stands mock ((b, driver, m) ∷ rest) n r c u =
      let o = handle w c b driver m in
      let (told, holds) =
        settle-Holds mock (n + bump w mock driver m) (report w mock driver m) r o
          (handle-Keeps w mock n c b driver m u) in
      longer mock n b driver m rest ((settle w r o).1) (run w ((settle w r o).0) rest) told (
        resumed mock (n + bump w mock driver m) rest ((settle w r o).0)
          (λ r' c' u'. run-Stands mock rest (n + bump w mock driver m) r' c' u') holds)

  -- A new actor over a new state, whatever messages come and whatever the driver answers: the messages up to an
  -- end of the actor are taken, all of them as long as it is up. The generation is then, modulo 2^64, the number
  -- of the taken `Init` for which the driver made a context and a stream, in mock mode of all; the
  -- parent has been told that the context is ready once for each of these for which the kernel actors got
  -- their streams and were spawned too. With kernel actors and outside mock mode the actor has a stream, whose context is the
  -- installed one; in mock mode it never has one; a new instance after a restart starts over with the same
  -- guarantees, and they hold at a failure that is passed on. Once the actor has stopped, no context is installed.
  pub run-new :
      (config : DeviceConfig) (retries : ℕ) (inputs : Inputs w)
      → Stands config.mock_mode 0 inputs
          (run w (up retries (new w config (State.new w config.device_id))) inputs)
  unfolding new State.new
  run-new config retries inputs =
      run-Stands config.mock_mode inputs 0 retries (new w config (State.new w config.device_id))
        (record {
          mode = refl;
          generation = refl;
          ready = λ e. cc;
          installed = λ e. cc;
          no_stream = λ _. refl;
        })
