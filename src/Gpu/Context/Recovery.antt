-- ===== src/Gpu/Context/Recovery.antt =====
-- context_actor.rs: a context that is lost, and what comes back.
use atomr_accel.Common.{
  ℕ, zero, suc, ◌+◌, ◌<◌, ◌≡◌, refl, ap, ◌∙◌, true, false, inl, inr, none, some, List, [], ◌∷◌,
  ◌++◌, length, Text, All, arith,
}
use atomr_accel.Gpu.Error.{escalate, gpu_ref_stale, err}
use atomr_accel.Gpu.Ref.{GpuRef, access, context_rebuilt}
use atomr_accel.Gpu.State.{Watch, bump_generation, install_context, clear_context, u64_mod}
use atomr_accel.Gpu.Device.Messages.{DType, KernelChildren, CopyReq, ContextMsg}
use atomr_accel.Gpu.Context.{
  Driver, Input, init, generic, copy_to_host, copy_from_host, Effect, context_ready, context_lost,
  no_context, expect_ready, ContextActor, new, done, panicked, Buffers, announce, acquired,
  with_stream, with_context, run_init, on_stream, handle_generic, handle, post_restart, post_stop,
}
use atomr_accel.Gpu.Context.Copies.{expect_ready-escalates}
use atomr_accel.Gpu.Context.Supervised.{
  System, up, stopped, escalated, stops, supervise, settle, run, Inputs, no_context-restarts,
}

-- The driver makes no context.
pub record Fails (driver : Driver) : Type 0 where
  pub reason : Text
  pub fails : driver.new_context ≡ inl reason

pub record Works (driver : Driver) : Type 0 where
  pub context : ℕ
  pub makes : driver.new_context ≡ inr context
  pub stream : ℕ
  pub streams : driver.new_stream ≡ inr stream
  pub acquires : driver.acquire ≡ none
  pub children : KernelChildren
  pub spawns : driver.spawn ≡ inr children

module _ (w : Watch) where
  -- An `Init` for each driver.
  unfoldable pub inits : List (Buffers w × Driver) → Inputs w
  inits [] = []
  inits ((b, driver) ∷ xs) = (b, driver, init) ∷ inits xs

  -- What the restarts tell the parent and the actor itself.
  unfoldable pub restarts : ℕ → List Effect
  restarts zero = []
  restarts (suc n) = post_restart w ++ restarts n

  init-fails :
      (c : ContextActor w) (b : Buffers w) (driver : Driver) (f : Fails driver)
      → c.config.mock_mode ≡ false
      → handle w c b driver init ≡ panicked c (no_context c.config.device_id f.reason)
  unfolding handle run_init with_context
  init-fails c b driver f real = ground (arith, f.fails, real)

  fail-settles :
      (r : ℕ) (c : ContextActor w) (b : Buffers w) (driver : Driver)
      → Fails driver
      → c.config.mock_mode ≡ false
      → settle w (suc r) (handle w c b driver init)
        ≡ (up r (new w c.config c.state), post_restart w)
  unfolding settle supervise
  fail-settles r c b driver f real =
      ap (settle w (suc r)) (init-fails c b driver f real)
      ∙ ap (λ d. supervise w (suc r) c d) (no_context-restarts w c.config.device_id f.reason)

  fail-stops :
      (c : ContextActor w) (b : Buffers w) (driver : Driver)
      → Fails driver
      → c.config.mock_mode ≡ false
      → settle w zero (handle w c b driver init)
        ≡ (stopped (clear_context w c.state), context_lost ∷ [])
  unfolding settle supervise stops post_stop
  fail-stops c b driver f real =
      ap (settle w zero) (init-fails c b driver f real)
      ∙ ap (λ d. supervise w zero c d) (no_context-restarts w c.config.device_id f.reason)

  -- The actor as a successful `Init` leaves it.
  unfoldable pub brought_up : ContextActor w → (driver : Driver) → Works driver → ContextActor w
  brought_up c driver k = record {
    state = install_context w k.context (bump_generation w c.state);
    config = c.config;
    stream = some k.stream;
    allocator = some k.context;
    children = some k.children;
  }

  init-works :
      (c : ContextActor w) (b : Buffers w) (driver : Driver) (k : Works driver)
      → c.config.mock_mode ≡ false
      → handle w c b driver init ≡ done (brought_up c driver k) (context_ready k.children ∷ [])
  unfolding handle run_init with_context with_stream acquired announce brought_up
  init-works c b driver k real = ground (arith, k.makes, k.streams, k.acquires, k.spawns, real)

  step :
      (r : ℕ) (c : ContextActor w) (b : Buffers w) (driver : Driver) (m : Input) (rest : Inputs w)
      (s : System w) (out : List Effect)
      → settle w r (handle w c b driver m) ≡ (s, out)
      → run w (up r c) ((b, driver, m) ∷ rest) ≡ ((run w s rest).0, out ++ (run w s rest).1)
  unfolding run
  step r c b driver m rest s out e = ap (λ x. ((run w (x.0) rest).0, x.1 ++ (run w (x.0) rest).1)) e

  recovers_run :
      (xs : List (Buffers w × Driver)) (retries r : ℕ) (c : ContextActor w) (b : Buffers w)
      (driver : Driver) (k : Works driver)
      → All (λ x. Fails (x.1)) xs
      → retries ≡ length xs + r
      → c.config.mock_mode ≡ false
      → run w (up retries c) (inits xs ++ (b, driver, init) ∷ [])
        ≡ (up r (brought_up c driver k), restarts (length xs) ++ context_ready k.children ∷ [])
  unfolding inits restarts brought_up run settle
  recovers_run [] retries r c b driver k fs e real =
      step retries c b driver init [] (up retries (brought_up c driver k))
        (context_ready k.children ∷ []) (ap (settle w retries) (init-works c b driver k real))
      ∙ ap (λ n. (up n (brought_up c driver k), context_ready k.children ∷ [])) (omega (arith, e))
  recovers_run ((b', bad) ∷ xs) zero r c b driver k fs e real =
      let no : ⊥ = omega (arith, e) in elim no [ ]
  recovers_run ((b', bad) ∷ xs) (suc n) r c b driver k (f, fs) e real =
      step (suc n) c b' bad init (inits xs ++ (b, driver, init) ∷ []) _ _
        (fail-settles n c b' bad f real)
      ∙ ap (λ x. (x.0, post_restart w ++ x.1))
          (recovers_run xs n r (new w c.config c.state) b driver k fs (omega (arith, e)) real)

  -- Whenever the driver fails to make a context, and makes it again before the restarts are used up: the actor
  -- is up again, with a stream and the kernel actors of the new context, which is installed; the parent has
  -- been told of each loss and at last that the context is ready; and while the device accepts work and the generation
  -- has not come round, a reference of the generation before is refused as one of a context that was rebuilt.
  pub recovers :
      (xs : List (Buffers w × Driver)) (retries r : ℕ) (c : ContextActor w) (b : Buffers w)
      (driver : Driver) (k : Works driver)
      → All (λ x. Fails (x.1)) xs
      → retries ≡ length xs + r
      → c.config.mock_mode ≡ false
      → c.state.generation + 1 < u64_mod
      → c.state.accepting_ops ≡ true
      → (c' : ContextActor w) × ((run w (up retries c) (inits xs ++ (b, driver, init) ∷ [])
            ≡ (up r c', restarts (length xs) ++ context_ready k.children ∷ []))
          × ((c'.stream ≡ some k.stream)
              × ((c'.children ≡ some k.children)
                  × ((c'.state.current_ctx ≡ some k.context)
                      × ((ref : GpuRef)
                          → ref.generation ≡ c.state.generation
                          → access w (some c'.state) ref ≡ err (gpu_ref_stale context_rebuilt))))))
  unfolding brought_up access install_context bump_generation
  recovers xs retries r c b driver k fs e real room accepting = (
    brought_up c driver k,
    (
      recovers_run xs retries r c b driver k fs e real,
      (refl, (refl, (refl, λ ref old. ground (arith, old, room, accepting)))),
    ),
  )

  -- One more failure than there are restarts: the actor stops, no context is installed, and the parent has been told of each loss.
  pub gives_up :
      (xs : List (Buffers w × Driver)) (retries : ℕ) (c : ContextActor w)
      → All (λ x. Fails (x.1)) xs
      → length xs ≡ suc retries
      → c.config.mock_mode ≡ false
      → run w (up retries c) (inits xs)
        ≡ (stopped (clear_context w c.state), restarts retries ++ context_lost ∷ [])
  unfolding inits restarts run
  gives_up [] retries c fs e real = let no : ⊥ = omega (arith, e) in elim no [ ]
  gives_up ((b, bad) ∷ xs) zero c (f, fs) e real =
      step zero c b bad init (inits xs) _ _ (fail-stops c b bad f real)
  gives_up ((b, bad) ∷ xs) (suc n) c (f, fs) e real =
      step (suc n) c b bad init (inits xs) _ _ (fail-settles n c b bad f real)
      ∙ ap (λ x. (x.0, post_restart w ++ x.1))
          (gives_up xs n (new w c.config c.state) fs (omega (arith, e)) real)

  -- The copies, in their four forms.
  pub data IsCopy : Input → Type 0 where
    to_host : (r : CopyReq) → IsCopy (generic (ContextMsg.copy_to_host r))
    from_host : (r : CopyReq) → IsCopy (generic (ContextMsg.copy_from_host r))
    to_host_typed : (dtype : DType) (src dst reply : ℕ) → IsCopy (copy_to_host dtype src dst reply)
    from_host_typed :
        (dtype : DType) (src dst reply : ℕ) → IsCopy (copy_from_host dtype src dst reply)

  copy-panics :
      (c : ContextActor w) (b : Buffers w) (driver : Driver) {m : Input}
      → IsCopy m
      → c.stream ≡ none
      → handle w c b driver m ≡ panicked c expect_ready
  unfolding handle handle_generic on_stream
  copy-panics c b driver (to_host r) h = ground (arith, h)
  copy-panics c b driver (from_host r) h = ground (arith, h)
  copy-panics c b driver (to_host_typed dtype src dst reply) h = ground (arith, h)
  copy-panics c b driver (from_host_typed dtype src dst reply) h = ground (arith, h)

  escalates : (r : ℕ) (c : ContextActor w) → supervise w r c escalate ≡ (escalated c, [])
  unfolding supervise
  escalates zero c = refl
  escalates (suc r) c = refl

  copy-escalates :
      (r : ℕ) (c : ContextActor w) (b : Buffers w) (driver : Driver) {m : Input} (rest : Inputs w)
      → IsCopy m
      → c.stream ≡ none
      → run w (up r c) ((b, driver, m) ∷ rest) ≡ (escalated c, [])
  unfolding run settle
  copy-escalates r c b driver rest m h = step r c b driver _ rest (escalated c) [] (
      ap (settle w r) (copy-panics c b driver m h)
      ∙ ap (λ d. supervise w r c d) (expect_ready-escalates w)
      ∙ escalates r c)

  -- When the context is lost and a copy is taken before the `Init` of the new instance, as one is that was in the
  -- mailbox already, the actor is not restarted again, whatever restarts are left: the panic of the copy holds
  -- no tag, and the failure is passed on to whoever supervises the device. Nothing is answered.
  pub lost_copy-escalates :
      (retries : ℕ) (c : ContextActor w) (b b' : Buffers w) (bad driver : Driver) {m : Input}
      (rest : Inputs w)
      → Fails bad
      → c.config.mock_mode ≡ false
      → IsCopy m
      → run w (up (suc retries) c) ((b, bad, init) ∷ (b', driver, m) ∷ rest)
        ≡ (escalated (new w c.config c.state), post_restart w)
  unfolding new
  lost_copy-escalates retries c b b' bad driver rest f real m =
      step (suc retries) c b bad init ((b', driver, _) ∷ rest) _ _
        (fail-settles retries c b bad f real)
      ∙ ap (λ x. (x.0, post_restart w ++ x.1))
          (copy-escalates retries (new w c.config c.state) b' driver rest m refl)
