-- ===== src/Gpu/Context/Account.antt =====
-- context_actor.rs: what one message does to the generation, and what it tells the parent.
use mathlib.Core.Path.{subst}
use atomr_accel.Common.{
  sym, ℕ, suc, ◌+◌, ◌*◌, ◌%◌, ◌≡◌, refl, Bool, true, false, ◌⊎◌, inl, inr, Option, none, some,
  is_some, List, [], ◌∷◌, ◌++◌, text, Text, arith,
}
use atomr_accel.Gpu.Ref.{access}
use atomr_accel.Gpu.Error.{ok, err}
use atomr_accel.Gpu.State.{Watch, bump_generation, install_context, u64_mod}
use atomr_accel.Gpu.Device.Messages.{KernelChildren, CopyReq, ContextMsg}
use atomr_accel.Gpu.Context.{
  Driver, Input, init, generic, Effect, context_ready, ContextActor, Outcome, done, panicked,
  Buffers, announce, acquired, with_stream, with_context, run_init, allocate, copy_to_host,
  copy_from_host, reply_alloc, enqueued, to_host_slice, from_host_slice, run_copy_to_host,
  run_copy_from_host, on_stream, handle_generic, handle,
}
use atomr_accel.Gpu.Context.Copies.{on_stream_cases}
use atomr_accel.Gpu.Context.Supervised.{Inputs}

module _ (w : Watch) where
  abbrev pub readies : List Effect → ℕ
  readies [] = 0
  readies (context_ready children ∷ es) = suc (readies es)
  readies (_ ∷ es) = readies es

  pub readies-append : (xs ys : List Effect) → readies (xs ++ ys) ≡ readies xs + readies ys
  readies-append [] ys = omega arith
  readies-append (context_ready children ∷ xs) ys = omega (arith, readies-append xs ys)
  readies-append (x ∷ xs) ys = readies-append xs ys

  -- The bumps of the generation and the reports to the parent that an `Init` is to make, by what the driver
  -- answers: a bump once there is a context and a stream, or at once in mock mode; a report once the kernel
  -- actors are there as well.
  abbrev pub both_made : Text ⊎ ℕ → Text ⊎ ℕ → ℕ
  both_made (inl e) stream = 0
  both_made (inr ctx) (inl e) = 0
  both_made (inr ctx) (inr stream) = 1

  abbrev pub spawned : (Text × Text) ⊎ KernelChildren → ℕ
  spawned (inl e) = 0
  spawned (inr children) = 1

  abbrev pub with_streams : Option Text → (Text × Text) ⊎ KernelChildren → ℕ
  with_streams (some e) s = 0
  with_streams none s = spawned s

  abbrev pub bump_of : Bool → Driver → ℕ
  bump_of true driver = 1
  bump_of false driver = both_made driver.new_context driver.new_stream

  abbrev pub report_of : Bool → Driver → ℕ
  report_of true driver = spawned driver.spawn
  report_of false driver =
      both_made driver.new_context driver.new_stream * with_streams driver.acquire driver.spawn

  abbrev pub bump : Bool → Driver → Input → ℕ
  bump mock driver init = bump_of mock driver
  bump mock driver _ = 0

  abbrev pub report : Bool → Driver → Input → ℕ
  report mock driver init = report_of mock driver
  report mock driver _ = 0

  abbrev pub bumps : Bool → Inputs w → ℕ
  bumps mock [] = 0
  bumps mock ((b, driver, m) ∷ rest) = bump mock driver m + bumps mock rest

  abbrev pub reports : Bool → Inputs w → ℕ
  reports mock [] = 0
  reports mock ((b, driver, m) ∷ rest) = report mock driver m + reports mock rest

  -- After `n` bumps of the generation. With kernel actors, and outside mock mode, the actor has a stream
  -- of the context that is installed; in mock mode it never has one.
  pub record IsUp (mock : Bool) (n : ℕ) (c : ContextActor w) : Type 0 where
    pub mode : c.config.mock_mode ≡ mock
    pub generation : c.state.generation ≡ n % u64_mod
    pub ready : is_some c.children ≡ true → mock ≡ false → is_some c.stream ≡ true
    pub installed : is_some c.stream ≡ true → c.state.current_ctx ≡ c.allocator
    pub no_stream : mock ≡ true → c.stream ≡ none

  -- What a handler leaves: `n` bumps, and `k` reports sent.
  abbrev pub Keeps : Bool → ℕ → ℕ → Outcome w → Type 0
  Keeps mock n k (done c out) = (readies out ≡ k) × IsUp mock n c
  Keeps mock n k (panicked c message) = (k ≡ 0) × IsUp mock n c

  still : (mock : Bool) (n : ℕ) (c : ContextActor w) → IsUp mock n c → IsUp mock (n + 0) c
  still mock n c h = subst (λ j. IsUp mock j c) (omega arith) h

  announce-Keeps :
      (mock : Bool) (n : ℕ) (c : ContextActor w) (s : (Text × Text) ⊎ KernelChildren)
      → (mock ≡ false → is_some c.stream ≡ true)
      → IsUp mock n c
      → Keeps mock n (spawned s) (announce w c s)
  unfolding announce
  announce-Keeps mock n c (inl e) t h = (refl, h)
  announce-Keeps mock n c (inr children) t h = (
    refl,
    record {
      mode = h.mode;
      generation = h.generation;
      ready = λ _ real. t real;
      installed = h.installed;
      no_stream = h.no_stream;
    },
  )

  acquired-Keeps :
      (n : ℕ) (c : ContextActor w) (s : (Text × Text) ⊎ KernelChildren) (asked : Option Text)
      → is_some c.stream ≡ true
      → IsUp false n c
      → Keeps false n (1 * with_streams asked s) (acquired w c s asked)
  unfolding acquired
  acquired-Keeps n c s (some e) t h = (refl, h)
  acquired-Keeps n c s none t h =
      subst (λ k. Keeps false n k (announce w c s)) (omega arith)
        (announce-Keeps false n c s (λ _. t) h)

  with_stream-Keeps :
      (n : ℕ) (c : ContextActor w) (driver : Driver) (ctx : ℕ) (made : Text ⊎ ℕ)
      → IsUp false n c
      → Keeps false
          (n + both_made (inr ctx) made)
          (both_made (inr ctx) made * with_streams driver.acquire driver.spawn)
          (with_stream w c driver ctx made)
  unfolding with_stream bump_generation install_context
  with_stream-Keeps n c driver ctx (inl e) h = (omega arith, still false n c h)
  with_stream-Keeps n c driver ctx (inr stream) h =
      acquired-Keeps (n + 1) _ driver.spawn driver.acquire refl (record {
        mode = h.mode;
        generation = omega (arith, h.generation);
        ready = λ _ _. refl;
        installed = λ _. refl;
        no_stream = λ m. cc;
      })

  with_context-Keeps :
      (n : ℕ) (c : ContextActor w) (driver : Driver) (made : Text ⊎ ℕ)
      → IsUp false n c
      → Keeps false
          (n + both_made made driver.new_stream)
          (both_made made driver.new_stream * with_streams driver.acquire driver.spawn)
          (with_context w c driver made)
  unfolding with_context
  with_context-Keeps n c driver (inl e) h = (omega arith, still false n c h)
  with_context-Keeps n c driver (inr ctx) h = with_stream-Keeps n c driver ctx driver.new_stream h

  run_init-Keeps :
      (mock : Bool) (n : ℕ) (c : ContextActor w) (driver : Driver)
      → IsUp mock n c
      → Keeps mock (n + bump_of mock driver) (report_of mock driver) (run_init w c driver)
  unfolding run_init bump_generation
  run_init-Keeps true n c driver h = simp (h.mode) (
      announce-Keeps true (n + 1) _ driver.spawn (λ real. cc)
        (record {
          mode = h.mode;
          generation = omega (arith, h.generation);
          ready = h.ready;
          installed = h.installed;
          no_stream = h.no_stream;
        }))
  run_init-Keeps false n c driver h =
      simp (h.mode) (with_context-Keeps n c driver driver.new_context h)

  on_stream-Keeps :
      (mock : Bool) (n : ℕ) (c : ContextActor w) (e : Effect)
      → readies (e ∷ []) ≡ 0
      → IsUp mock n c
      → Keeps mock (n + 0) 0 (on_stream w c e)
  on_stream-Keeps mock n c e q h = elim (on_stream_cases w c e) [
    | inl (absent, panics) ↦ subst (Keeps mock (n + 0) 0) (sym panics) (refl, still mock n c h)
    | inr (stream, (there, answers)) ↦
        subst (Keeps mock (n + 0) 0) (sym answers) (q, still mock n c h)
  ]

  quiet_enqueued :
      (call : Text) (reply host : ℕ) (refused : Option Text)
      → readies (enqueued w call reply host refused ∷ []) ≡ 0
  unfolding enqueued
  quiet_enqueued call reply host none = refl
  quiet_enqueued call reply host (some e) = refl

  quiet_to_host :
      (b : Buffers w) (driver : Driver) (r : CopyReq)
      → readies (run_copy_to_host w b driver r ∷ []) ≡ 0
  unfolding run_copy_to_host to_host_slice
  quiet_to_host b driver r =
      elim (access w (b.owner r.src) (b.device_ref r.src))
        as (λ a. readies (to_host_slice w b driver r.dst r.reply a ∷ []) ≡ 0) [
          | err e ↦ refl
          | ok slice ↦
              ground (arith, quiet_enqueued (text "memcpy_dtoh: ") r.reply r.dst driver.memcpy)
        ]

  quiet_from_host :
      (b : Buffers w) (driver : Driver) (r : CopyReq)
      → readies (run_copy_from_host w b driver r ∷ []) ≡ 0
  unfolding run_copy_from_host from_host_slice
  quiet_from_host b driver r =
      elim (access w (b.owner r.dst) (b.device_ref r.dst))
        as (λ a. readies (from_host_slice w b driver r.src r.dst r.reply a ∷ []) ≡ 0) [
          | err e ↦ refl
          | ok slice ↦
              ground (arith, quiet_enqueued (text "memcpy_htod: ") r.reply r.src driver.memcpy)
        ]

  pub handle-Keeps :
      (mock : Bool) (n : ℕ) (c : ContextActor w) (b : Buffers w) (driver : Driver) (m : Input)
      → IsUp mock n c
      → Keeps mock (n + bump mock driver m) (report mock driver m) (handle w c b driver m)
  unfolding handle handle_generic reply_alloc
  handle-Keeps mock n c b driver init h = run_init-Keeps mock n c driver h
  handle-Keeps mock n c b driver (generic (ContextMsg.alloc r)) h = (refl, still mock n c h)
  handle-Keeps mock n c b driver (generic (ContextMsg.copy_to_host r)) h =
      on_stream-Keeps mock n c _ (quiet_to_host b driver r) h
  handle-Keeps mock n c b driver (generic (ContextMsg.copy_from_host r)) h =
      on_stream-Keeps mock n c _ (quiet_from_host b driver r) h
  handle-Keeps mock n c b driver (generic (ContextMsg.snapshot_stream reply)) h =
      (refl, still mock n c h)
  handle-Keeps mock n c b driver (allocate dtype len reply) h = (refl, still mock n c h)
  handle-Keeps mock n c b driver (copy_to_host dtype src dst reply) h =
      on_stream-Keeps mock n c _
        (quiet_to_host b driver (record { dtype = dtype; src = src; dst = dst; reply = reply })) h
  handle-Keeps mock n c b driver (copy_from_host dtype src dst reply) h =
      on_stream-Keeps mock n c _
        (quiet_from_host b driver (record { dtype = dtype; src = src; dst = dst; reply = reply })) h
